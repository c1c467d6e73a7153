-- ===== src/Discoverer/Reconcile/Summary.antt =====
-- What cmd/discoverer/reconcile.go logs of a request to the certificate service, with `sanSummary`.
use mathlib.Core.List.{Memᴰ}
use dockerdynomesh.Prelude.{
  ℕ, ◌+◌, ◌*◌, ◌≡◌, refl, true, List, [], ◌∷◌, length, Bool-cases, inl, inr,
}
use dockerdynomesh.Prelude.Sort.{IsSorted}
use dockerdynomesh.Text.{Text, codes, text_le}
use dockerdynomesh.Text.Order.{text_order, text_le-total}
use dockerdynomesh.Certgen.San.Length.{remote_count, length-sans}
use dockerdynomesh.Certgen.Api.{ReissueRequest, requested_sans}
use dockerdynomesh.Inspect.{InspectResponse, projects_of}
use dockerdynomesh.Inspect.Projects.{projects_of_lem}
use dockerdynomesh.Discoverer.Reconcile.{Reconciler, request_of}

abbrev last_of : Text → List Text → Text
last_of p [] = p
last_of p (q ∷ projects) = last_of q projects

-- `sanSummary`
abbrev pub san_summary : List Text → Text × Text
san_summary [] = (codes "<none>", codes "<none>")
san_summary (p ∷ projects) = (p, last_of p projects)

-- The values of the line that is logged in front of a request.
pub record ReissueLine : Type 0 where
  pub projects : ℕ
  pub suffixes : ℕ
  pub sans : ℕ
  pub first : Text
  pub last : Text

unfoldable pub reissue_line : ReissueRequest → ReissueLine
reissue_line request = record {
  projects = length request.projects;
  suffixes = length request.suffixes;
  sans = length request.suffixes * (length request.projects + 1);
  first = (san_summary request.projects).0;
  last = (san_summary request.projects).1;
}

-- What the line says of the names that are asked for and of the projects.
pub record IsTold (request : ReissueRequest) (line : ReissueLine) : Type 0 where
  pub names :
      length (requested_sans request)
      ≡ line.sans + remote_count request.machine_name request.tailnet_domain request.projects
  pub firsts : (p : Text) → Memᴰ p request.projects → text_le line.first p ≡ true
  pub lasts : (p : Text) → Memᴰ p request.projects → text_le p line.last ≡ true
  pub ends :
      (¬ (request.projects ≡ []))
      → Memᴰ line.first request.projects × Memᴰ line.last request.projects

le_refl : (p : Text) → text_le p p ≡ true
le_refl p = elim (Bool-cases (text_le p p)) [ inl e ↦ e | inr e ↦ text_le-total p p e ]

mem-last_of : (p : Text) (projects : List Text) → Memᴰ (last_of p projects) (p ∷ projects)
mem-last_of p [] = Memᴰ.head refl
mem-last_of p (q ∷ projects) = Memᴰ.tail (mem-last_of q projects)

last_of-above :
    (p : Text) (projects : List Text)
    → IsSorted (p ∷ projects)
    → (q : Text) → Memᴰ q (p ∷ projects)
    → text_le q (last_of p projects) ≡ true
last_of-above p [] s q (Memᴰ.head e) = rw e (le_refl p)
last_of-above p [] s q (Memᴰ.tail m) = elim m [ ]
last_of-above p (r ∷ projects) (b, s) q (Memᴰ.head e) =
    rw e (b (last_of r projects) (mem-last_of r projects))
last_of-above p (r ∷ projects) (b, s) q (Memᴰ.tail m) = last_of-above r projects s q m

first-below :
    (projects : List Text)
    → IsSorted projects
    → (q : Text) → Memᴰ q projects
    → text_le (san_summary projects).0 q ≡ true
first-below [] s q m = elim m [ ]
first-below (p ∷ projects) s q (Memᴰ.head e) = rw e (le_refl p)
first-below (p ∷ projects) (b, s) q (Memᴰ.tail m) = b q m

last-above :
    (projects : List Text)
    → IsSorted projects
    → (q : Text) → Memᴰ q projects
    → text_le q (san_summary projects).1 ≡ true
last-above [] s q m = elim m [ ]
last-above (p ∷ projects) s q m = last_of-above p projects s q m

mem-san_summary :
    (projects : List Text)
    → ¬ (projects ≡ [])
    → Memᴰ (san_summary projects).0 projects × Memᴰ (san_summary projects).1 projects
mem-san_summary [] n = absurd (n refl)
mem-san_summary (p ∷ projects) n = (Memᴰ.head refl, mem-last_of p projects)

-- The line in front of a request for the inspected projects names the least and the greatest of them,
-- if there is one, and its number of names is the number of the certificate's without those of the
-- remote domain.
pub reissue_line-IsTold :
    (r : Reconciler) (cs : List InspectResponse)
    → IsTold (request_of r (projects_of cs)) (reissue_line (request_of r (projects_of cs)))
unfolding reissue_line
reissue_line-IsTold r cs =
    let (sorted, distinct, _) = projects_of_lem cs in
    record {
      names = length-sans r.suffixes r.machine r.tailnet (projects_of cs) distinct;
      firsts = first-below (projects_of cs) sorted;
      lasts = last-above (projects_of cs) sorted;
      ends = mem-san_summary (projects_of cs);
    }
