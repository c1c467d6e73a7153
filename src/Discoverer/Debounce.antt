-- ===== src/Discoverer/Debounce.antt =====
-- cmd/discoverer/debounce.go, over the timers of package `time`. Since Go 1.23 `Stop` discards a tick
-- that nobody has received, and before it does not; `discards` says which, and is left open.
use dockerdynomesh.Prelude.{
  ℕ, ◌+◌, ◌≡◌, Bool, true, false, Option, none, some, leb, if◌then◌else◌, Bool-cases, inl, inr,
}

-- A timer with its channel: when it expires, and whether a tick waits to be received.
pub record Timer : Type 0 where
  pub deadline : Option ℕ
  pub tick : Bool

abbrev pub is_running : Option ℕ → Bool
is_running none = false
is_running (some t) = true

-- `Timer.Stop`, with its result
abbrev pub stop_timer : Bool → Timer → Bool × Timer
stop_timer discards t =
    (is_running t.deadline, record { deadline = none; tick = if discards then false else t.tick })

-- `Timer.Reset`, at the time `now`
abbrev pub reset_timer : ℕ → ℕ → Timer → Timer
reset_timer now d t = record t { deadline = some (now + d) }

-- A receive that does not wait
abbrev pub drain : Timer → Timer
drain t = record t { tick = false }

-- The runtime, when the clock shows `now`
abbrev expire : ℕ → Timer → Option ℕ → Timer
expire now t none = t
expire now t (some dl) = if leb dl now then record { deadline = none; tick = true } else t

unfoldable pub advance : ℕ → Timer → Timer
advance now t = expire now t t.deadline

-- `newDebouncer`: a timer of an hour that is stopped at once.
unfoldable pub new_debouncer : Bool → ℕ → Timer
new_debouncer discards now =
    let (stopped, t) =
      stop_timer discards
        (reset_timer now 3_600_000_000_000 (record { deadline = none; tick = false })) in
    if stopped then t else drain t

-- `bump`, of a debouncer with the window `d`
unfoldable pub bump : Bool → ℕ → ℕ → Timer → Timer
bump discards d now t =
    let (stopped, u) = stop_timer discards t in reset_timer now d (if stopped then u else drain u)

-- No timer has expired and is armed at once.
abbrev pub IsSound : Timer → Type 0
IsSound t = is_running t.deadline ≡ true → t.tick ≡ false

-- Under either behaviour of `Stop`, a bump leaves the timer armed for the whole window from now on,
-- and no tick from before it.
pub bump_lem :
    (discards : Bool) (d now : ℕ) (t : Timer)
    → IsSound t
    → bump discards d now t ≡ record { deadline = some (now + d); tick = false }
unfolding bump
bump_lem true d now t h = elim (Bool-cases (is_running t.deadline)) [ inl e ↦ rw e | inr e ↦ rw e ]
bump_lem false d now t h = elim (Bool-cases (is_running t.deadline)) [
  | inl e ↦ rw (e, h e)
  | inr e ↦ rw e
]
