-- ===== src/Certgen/Server/Serial.antt =====
-- Requests in any interleaving against requests one after the other.
use dockerdynomesh.Prelude.{
  ℕ, ◌≡◌, ◌≢◌, refl, sym, ap, ◌∙◌, false, Option, none, some, Bool-cases, inl, inr,
}
use mathlib.Core.Option.{some-injective}
use dockerdynomesh.Files.{Files}
use dockerdynomesh.Certgen.Reissue.{Reissuer, Tools}
use dockerdynomesh.Certgen.Api.{ReissueRequest, Response}
use dockerdynomesh.Certgen.Server.{
  Call, Job, Locked, entered, leaving, Pc, arrived, waiting, inside, answered, System, update,
  moved,
}
use dockerdynomesh.Certgen.Server.Alone.{alone, handled, rest}
use dockerdynomesh.Certgen.Server.Exclusion.{
  is_inside, IsExclusive, split_at, update_self, update_ne,
}

-- The service as its specification has it: the files, and the requests that are served.
pub record Served (A : Type 0) : Type 0 where
  pub files : Files A
  pub answers : ℕ → Option Response

module _ {A Wire : Type 0} (tools : Tools A) (decode : ℕ → Wire → Option ReissueRequest)
    (r : Reissuer) where
  -- One request is served as a whole, at some time: `serve` of the model of one request.
  pub record Serves (calls : ℕ → Call Wire) (a b : Served A) : Type 0 where
    pub thread : ℕ
    pub now : ℕ
    pub unserved : a.answers thread ≡ none
    pub response : b.answers thread ≡ some (handled tools decode r now (calls thread) a.files).0
    pub files : b.files ≡ (handled tools decode r now (calls thread) a.files).1
    pub others : (j : ℕ) → thread ≢ j → b.answers j ≡ a.answers j

  -- Some of the requests were served, one after the other.
  pub data Serial (fs : Files A) (calls : ℕ → Call Wire) : Served A → Type 0 where
    start : {a : Served A} → a.files ≡ fs → ((i : ℕ) → a.answers i ≡ none) → Serial fs calls a
    next : {a b : Served A} → Serial fs calls a → Serves calls a b → Serial fs calls b

  -- A request counts as served once it has begun under the mutex, or is refused before; what it has
  -- left to do then is done.
  abbrev served_inside : Option (Response × Files A) → Option Response
  served_inside none = none
  served_inside (some (response, fs)) = some response

  abbrev files_inside : Files A → Option (Response × Files A) → Files A
  files_inside fs none = fs
  files_inside fs (some (response, gs)) = gs

  abbrev pub answer_of : Files A → Pc Wire → Option Response
  answer_of fs (arrived c) = none
  answer_of fs (waiting job) = none
  answer_of fs (inside q) = served_inside (rest tools decode r q fs)
  answer_of fs (answered response) = some response

  abbrev pub files_of : Files A → Pc Wire → Files A
  files_of fs (inside q) = files_inside fs (rest tools decode r q fs)
  files_of fs (arrived c) = fs
  files_of fs (waiting job) = fs
  files_of fs (answered response) = fs

  abbrev pub owned_files : System A Wire → Option ℕ → Files A
  owned_files s none = s.files
  owned_files s (some i) = files_of s.files (s.pc i)

  -- What an interleaved state stands for.
  abbrev pub settled : System A Wire → Served A
  settled s = record { files = owned_files s s.owner; answers = λ i. answer_of s.files (s.pc i) }

  -- The thread `i` is on the way of its request.
  abbrev pub OnTheWay : Call Wire → Pc Wire → Type 0
  OnTheWay c (arrived d) = d ≡ c
  OnTheWay c (waiting job) =
      (now : ℕ) (fs : Files A) → handled tools decode r now c fs ≡ alone tools decode r now job fs
  OnTheWay c (inside (entered job)) =
      (now : ℕ) (fs : Files A) → handled tools decode r now c fs ≡ alone tools decode r now job fs
  OnTheWay c _ = Unit

  -- Nothing to see from outside.
  pub record Same (a b : Served A) : Type 0 where
    pub files : b.files ≡ a.files
    pub answers : (i : ℕ) → b.answers i ≡ a.answers i

  pub Serial-Same :
      {fs : Files A} {calls : ℕ → Call Wire} {a b : Served A}
      → Serial fs calls a
      → Same a b
      → Serial fs calls b
  Serial-Same (Serial.start f n) e = Serial.start (e.files ∙ f) (λ i. e.answers i ∙ n i)
  Serial-Same (Serial.next h v) e = Serial.next h (record {
    thread = v.thread;
    now = v.now;
    unserved = v.unserved;
    response = e.answers v.thread ∙ v.response;
    files = e.files ∙ v.files;
    others = λ j n. e.answers j ∙ v.others j n;
  })

  answer_of-outside :
      (p : Pc Wire) (fs gs : Files A) → is_inside p ≡ false → answer_of fs p ≡ answer_of gs p
  answer_of-outside (arrived c) fs gs h = refl
  answer_of-outside (waiting job) fs gs h = refl
  answer_of-outside (inside q) fs gs h = cc
  answer_of-outside (answered response) fs gs h = refl

  module _ (s : System A Wire) (i : ℕ) where
    pub other_files :
        (p : Pc Wire) (o : Option ℕ)
        → o ≢ some i
        → owned_files (record s { pc = update s.pc i p }) o ≡ owned_files s o
    other_files p none n = refl
    other_files p (some k) n =
        ap (files_of s.files) (update_ne s.pc i k p (λ e. n (ap some (sym e))))

    -- The mutex is held by the thread `i`.
    module _ (exclusive : IsExclusive s) (held : s.owner ≡ some i) where
      other_outside : (j : ℕ) → i ≢ j → is_inside (s.pc j) ≡ false
      other_outside j n = elim (Bool-cases (is_inside (s.pc j))) [
        | inl e ↦ absurd (n (some-injective _ _ (sym held ∙ (exclusive j).0 e)))
        | inr e ↦ e
      ]

      other_answers :
          (fs : Files A) (p : Pc Wire) (j : ℕ)
          → i ≢ j
          → answer_of fs (update s.pc i p j) ≡ answer_of s.files (s.pc j)
      other_answers fs p j n =
          ap (answer_of fs) (update_ne s.pc i j p n)
          ∙ answer_of-outside (s.pc j) fs s.files (other_outside j n)

      held_files : owned_files s s.owner ≡ files_of s.files (s.pc i)
      held_files = ap (owned_files s) held

      moved_files :
          (q : Locked) (fs : Files A)
          → (settled (record s { files = fs; pc = update s.pc i (inside q) })).files
            ≡ files_of fs (inside q)
      moved_files q fs =
          ap (owned_files (record s { files = fs; pc = update s.pc i (inside q) })) held
          ∙ ap (files_of fs) (update_self s.pc i (inside q))

      moved_answer :
          (q : Locked) (fs : Files A)
          → (settled (record s { files = fs; pc = update s.pc i (inside q) })).answers i
            ≡ answer_of fs (inside q)
      moved_answer q fs = ap (answer_of fs) (update_self s.pc i (inside q))

      -- The first step under the mutex serves the request.
      pub begin-Serves :
          (calls : ℕ → Call Wire) (now : ℕ) (job : Job) (o : Locked × Files A)
          → s.pc i ≡ inside (entered job)
          → OnTheWay (calls i) (inside (entered job))
          → rest tools decode r o.0 o.1 ≡ some (alone tools decode r now job s.files)
          → Serves calls (settled s) (settled (moved tools decode r i s o))
      begin-Serves calls now job (q, fs) e way h =
          let before : (settled s).files ≡ s.files = held_files ∙ ap (files_of s.files) e in
          record {
            thread = i;
            now = now;
            unserved = ap (answer_of s.files) e;
            response =
                moved_answer q fs
                ∙ ap served_inside h
                ∙ ap some (
                    ap (λ x. x.0)
                      (sym (way now s.files)
                        ∙ ap (handled tools decode r now (calls i)) (sym before)));
            files =
                moved_files q fs
                ∙ ap (files_inside fs) h
                ∙ ap (λ x. x.1)
                    (sym (way now s.files)
                      ∙ ap (handled tools decode r now (calls i)) (sym before));
            others = other_answers fs (inside q);
          }

      -- The others cannot be seen.
      pub go_on-Same :
          (q : Locked) (o : Locked × Files A) (x : Response × Files A)
          → s.pc i ≡ inside q
          → rest tools decode r q s.files ≡ some x
          → rest tools decode r o.0 o.1 ≡ some x
          → Same (settled s) (settled (moved tools decode r i s o))
      go_on-Same q (p, fs) x e g h = record {
        files =
            moved_files p fs
            ∙ ap (files_inside fs) h
            ∙ sym (held_files ∙ ap (files_of s.files) e ∙ ap (files_inside s.files) g);
        answers =
            split_at i
              (moved_answer p fs
                ∙ ap served_inside h
                ∙ sym (ap (answer_of s.files) e ∙ ap served_inside g))
              (other_answers fs (inside p));
      }

      pub leave-Same :
          (response : Response)
          → s.pc i ≡ inside (leaving response)
          → Same
              (settled s)
              (settled (record s { owner = none; pc = update s.pc i (answered response) }))
      leave-Same response e = record {
        files = sym (held_files ∙ ap (files_of s.files) e);
        answers =
            split_at i
              (ap (answer_of s.files) (update_self s.pc i (answered response))
                ∙ sym (ap (answer_of s.files) e))
              (other_answers s.files (answered response));
      }
