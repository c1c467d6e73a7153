-- ===== src/Examples/Reconciling.antt =====
-- Reconciles, and the host names that the certificate covers.
use mathlib.Core.List.{Memᴰ}
use dockerdynomesh.Prelude.{
  ℕ, eqb, ◌+◌, ◌≡◌, refl, sym, ◌∙◌, ◌≢◌, Bool, true, false, List, [], ◌∷◌, Option, none, some, inl,
}
use dockerdynomesh.Prelude.Sort.{sort}
use dockerdynomesh.Prelude.Result.{Result, ok, err}
use dockerdynomesh.Text.{Text, codes, ◌==◌, is_empty, to_lower, has_double, ends_in}
use dockerdynomesh.Text.Label.{matches_label}
use dockerdynomesh.Certgen.Reissue.{sans_equal}
use dockerdynomesh.Text.Order.{text_order}
use dockerdynomesh.Inspect.{
  Config, InspectResponse, project_label, project_of, lookup, projects_of, infer_hostname,
}
use dockerdynomesh.Certgen.San.{validate_label, sans}
use dockerdynomesh.Certgen.Api.{ReissueRequest, validate}
use dockerdynomesh.Certgen.Api.Validation.{IsValid, validate_iff}
use dockerdynomesh.Render.{host_names}
use dockerdynomesh.Prelude.Int.{pos}
use dockerdynomesh.Discoverer.Boot.{boot_reconcile, after, Ending, boot_reconcile-Ending}
use dockerdynomesh.Discoverer.Coverage.{IsCovered, compose-IsCovered}
use dockerdynomesh.Discoverer.Reconcile.{Services, State, request_of, reconcile_with}
use dockerdynomesh.Discoverer.Reconcile.Summary.{IsTold, reissue_line, reissue_line-IsTold}
use dockerdynomesh.Discoverer.Reconcile.Phases.{Refused}
use dockerdynomesh.Discoverer.Reconcile.Order.{last_reissued, InStep, Reach, Reach-InStep}
use dockerdynomesh.Discoverer.Reconcile.Stale.{FailsLate, stale_certificate}
use dockerdynomesh.Discoverer.Reconcile.Blocked.{RefusesInvalid, reconcile_blocked}
use dockerdynomesh.Examples.Data.{port_of, lower, suffixes, web_config, web, tool}

abbrev cs : List InspectResponse
cs = web ∷ tool ∷ []

compose-IsCovered_example : IsCovered (sans suffixes [] [] (projects_of cs)) (codes "web.shop.test")
unfolding lookup ◌==◌ to_lower infer_hostname host_names sort
compose-IsCovered_example =
    compose-IsCovered lower suffixes [] [] cs web web_config (codes "web.shop.test")
      (Memᴰ.head refl) refl refl refl refl (record { given = refl; no_dot = refl }) (Memᴰ.head refl)

-- The certificate service takes every valid request, and the state says whether the disk is free.
abbrev services : Services Bool
services = record {
  certgen = λ request w. (elim (validate request) [ ok _ ↦ true | err _ ↦ false ], w);
  write_out = λ path yaml w. (w, w);
  render = λ cfg. ok [];
  list = λ w. (some [], w);
  inspect = λ id w. (none, w);
  port_of = port_of;
  lower = lower;
}

abbrev start : Option (List Text) → Bool → State Bool
start last disk = record {
  reconciler = record {
    out = codes "d.yml";
    suffixes = suffixes;
    machine = [];
    tailnet = [];
    network = [];
    last_projects = last;
    logged_misconfig = [];
  };
  world = disk;
  trace = [];
}

succeeds : (reconcile_with services cs (start none true)).0 ≡ ok tt
unfolding reconcile_with validate validate_label matches_label has_double ends_in projects_of sort
    lookup ◌==◌
succeeds = refl

start-InStep : InStep (start none true)
unfolding last_reissued
start-InStep = refl

Reach-InStep_example : InStep (reconcile_with services cs (start none true)).1
Reach-InStep_example = Reach-InStep services start-InStep (Reach.next cs Reach.here (inl succeeds))

abbrev empty : List InspectResponse
empty = []

-- The projects of `empty` are remembered, and the disk is full.
abbrev full : State Bool
full = start (some (projects_of empty)) false

not_nil : (t : Text) (ts : List Text) → (t ∷ ts) ≢ []
not_nil t ts e = cc

projects_of-cs : projects_of cs ≡ codes "shop" ∷ []
unfolding projects_of sort lookup ◌==◌
projects_of-cs = refl

projects_of-empty : projects_of empty ≡ []
unfolding projects_of sort
projects_of-empty = refl

other_projects : projects_of cs ≢ projects_of empty
other_projects e = not_nil (codes "shop") [] (sym projects_of-cs ∙ e ∙ projects_of-empty)

fails_late : FailsLate (reconcile_with services cs full).0
unfolding reconcile_with sans_equal projects_of sort lookup ◌==◌ validate validate_label
    matches_label has_double ends_in
fails_late = inl refl

stale_certificate_example :
    let u = (reconcile_with services empty (reconcile_with services cs full).1).1 in
    (last_reissued none u.trace ≡ some (projects_of cs))
    × (u.reconciler.last_projects ≡ some (projects_of empty))
stale_certificate_example = stale_certificate services full empty cs refl other_projects fails_late

services-RefusesInvalid : RefusesInvalid services
services-RefusesInvalid = record {
  refuses = λ request w n. refused request n (validate request) refl;
}
  where
    refused :
        (request : ReissueRequest)
        → ¬ IsValid request
        → (v : Result _ _) → validate request ≡ v
        → elim v [ ok _ ↦ true | err _ ↦ false ] ≡ false
    refused request n (ok tt) e = absurd (n ((validate_iff request).0 e))
    refused request n (err m) e = refl

abbrev bad_config : Config
bad_config = record { labels = (project_label, codes "a..b") ∷ []; exposed_ports = [] }

-- A container whose project label is no label.
abbrev bad : InspectResponse
bad = record {
  id = codes "c";
  name = codes "/c";
  config = some bad_config;
  network_settings = none;
}

bad_given : is_empty (project_of bad) ≡ false
unfolding lookup ◌==◌
bad_given = refl

bad_label : validate_label (project_of bad) ≡ false
unfolding lookup ◌==◌ validate_label matches_label has_double ends_in
bad_label = refl

none_not_some : (ts : List Text) → none ≢ some ts
none_not_some ts e = cc

reconcile_blocked_example :
    Refused services
      (web ∷ bad ∷ [])
      (start none true)
      (reconcile_with services (web ∷ bad ∷ []) (start none true))
reconcile_blocked_example =
    reconcile_blocked services (web ∷ bad ∷ []) (start none true) services-RefusesInvalid bad
      (Memᴰ.tail (Memᴰ.head refl)) bad_given bad_label
      (none_not_some (projects_of (web ∷ bad ∷ [])))

-- An attempt that works once its counter is at two.
abbrev third_works : ℕ → Bool × ℕ
third_works n = (eqb n 2, n + 1)

abbrev never : ℕ → Bool
never n = false

boot_reconcile-Ending_example :
    let r = boot_reconcile third_works never (pos 5) 0 in
    (r.2 ≡ after third_works never r.1 0) × Ending third_works never 5 0 r.0 r.1
boot_reconcile-Ending_example = boot_reconcile-Ending third_works never (pos 5) 0

reissue_line-IsTold_example :
    IsTold
      (request_of (start none true).reconciler (projects_of cs))
      (reissue_line (request_of (start none true).reconciler (projects_of cs)))
reissue_line-IsTold_example = reissue_line-IsTold (start none true).reconciler cs
