-- ===== src/Render/Success.antt =====
-- When `Render` succeeds.
use mathlib.Core.List.{Memᴰ}
use dockerdynomesh.Prelude.{
  ◌≡◌, refl, ◌↔◌, sym, ap, ◌∙◌, true, false, not, ◌||◌, List, [], ◌∷◌, map, arith,
}
use dockerdynomesh.Prelude.Result.{ok, require, >>=-eq-ok, ok_inj}
use dockerdynomesh.Prelude.Sort.{sort, mem-sort}
use dockerdynomesh.Text.{Text, is_empty}
use dockerdynomesh.Text.Order.{text_order}
use dockerdynomesh.Render.{
  Container, Config, RenderRouter, hostname_re, check_suffixes, router, router_of,
  suffixes_required, routers, check_config, is_none, template, render,
}

-- A container that `Render` accepts.
pub record IsRoutable (c : Container) : Type 0 where
  pub safe : hostname_re c.hostname ≡ true
  pub addressed : is_empty c.address ≡ false

-- A configuration that `Render` accepts.
pub record IsRenderable (cfg : Config) : Type 0 where
  pub some_suffix : is_none cfg.suffixes ≡ false
  pub suffixes : (s : Text) → Memᴰ s cfg.suffixes → hostname_re s ≡ true
  pub machine : (is_empty cfg.machine_name || hostname_re cfg.machine_name) ≡ true
  pub tailnet : (is_empty cfg.tailnet_domain || hostname_re cfg.tailnet_domain) ≡ true
  pub containers : (c : Container) → Memᴰ c cfg.containers → IsRoutable c

check_suffixes_inv :
    (suffixes : List Text) {u : Unit {0}}
    → check_suffixes suffixes ≡ ok u
    → (s : Text) → Memᴰ s suffixes
    → hostname_re s ≡ true
unfolding check_suffixes
check_suffixes_inv [] h s m = elim m [ ]
check_suffixes_inv (t ∷ suffixes) h s (Memᴰ.head e) = rw e (ground arith)
check_suffixes_inv (t ∷ suffixes) h s (Memᴰ.tail m) =
    check_suffixes_inv suffixes {u = tt} (ground arith) s m

check_suffixes_pass :
    (suffixes : List Text)
    → ((s : Text) → Memᴰ s suffixes → hostname_re s ≡ true)
    → check_suffixes suffixes ≡ ok tt
unfolding check_suffixes
check_suffixes_pass [] h = refl
check_suffixes_pass (t ∷ suffixes) h =
    rw (h t (Memᴰ.head refl)) (check_suffixes_pass suffixes (λ s m. h s (Memᴰ.tail m)))

hostname_re_nonempty : (s : Text) → hostname_re s ≡ true → is_empty s ≡ false
unfolding dockerdynomesh.Text.Label.matches_label
hostname_re_nonempty [] h = cc
hostname_re_nonempty (c ∷ s) h = refl

module _ (suffixes : List Text) (machine tailnet : Text) where
  router_inv :
      (c : Container) {r : RenderRouter}
      → router suffixes machine tailnet c ≡ ok r
      → IsRoutable c × (r ≡ router_of suffixes machine tailnet c)
  unfolding router
  router_inv c h = (record { safe = ground arith; addressed = ground arith }, ground arith)

  router_pass :
      (c : Container)
      → IsRoutable c
      → router suffixes machine tailnet c ≡ ok (router_of suffixes machine tailnet c)
  unfolding router
  router_pass c h = rw (hostname_re_nonempty c.hostname h.safe, h.addressed, h.safe)

  IsRoutable-cons :
      {d : Container} {cs : List Container}
      → IsRoutable d
      → ((c : Container) → Memᴰ c cs → IsRoutable c)
      → (c : Container) → Memᴰ c (d ∷ cs)
      → IsRoutable c
  IsRoutable-cons h k c (Memᴰ.head e) = rw e h
  IsRoutable-cons h k c (Memᴰ.tail m) = k c m

  -- The loop over the containers succeeds only if all of them are accepted, and gives one router
  -- for each.
  pub routers_inv :
      (cs : List Container) {rs : List RenderRouter}
      → routers suffixes machine tailnet cs ≡ ok rs
      → ((c : Container) → Memᴰ c cs → IsRoutable c)
        × (rs ≡ map (router_of suffixes machine tailnet) cs)
  unfolding routers
  routers_inv [] h = ((λ c m. elim m [ ]), ground arith)
  routers_inv (d ∷ cs) h =
      let (r, e, k) = >>=-eq-ok (router suffixes machine tailnet d) _ h in
      let (rs, f, l) = >>=-eq-ok (routers suffixes machine tailnet cs) _ k in
      let (fits, p) = router_inv d e in
      let (all_fit, q) = routers_inv cs f in (IsRoutable-cons fits all_fit, cc)

  pub routers_pass :
      (cs : List Container)
      → ((c : Container) → Memᴰ c cs → IsRoutable c)
      → routers suffixes machine tailnet cs ≡ ok (map (router_of suffixes machine tailnet) cs)
  unfolding routers
  routers_pass [] h = refl
  routers_pass (d ∷ cs) h =
      rw (router_pass d (h d (Memᴰ.head refl)), routers_pass cs (λ c m. h c (Memᴰ.tail m)))

-- One router for each container, in their order.
abbrev pub all_routers : Config → List RenderRouter
all_routers cfg =
    map (router_of (sort cfg.suffixes) cfg.machine_name cfg.tailnet_domain) cfg.containers

module _ (sort_slice : List RenderRouter → List RenderRouter) (cfg : Config) where
  check_config_inv :
      {u : Unit {0}}
      → check_config cfg ≡ ok u
      → ((s : Text) → Memᴰ s cfg.suffixes → hostname_re s ≡ true)
        × ((is_empty cfg.machine_name || hostname_re cfg.machine_name) ≡ true)
        × ((is_empty cfg.tailnet_domain || hostname_re cfg.tailnet_domain) ≡ true)
  unfolding check_config
  check_config_inv h =
      let (v, e, k) = >>=-eq-ok (check_suffixes (sort cfg.suffixes)) _ h in
      (
        (λ s m. check_suffixes_inv (sort cfg.suffixes) e s ((mem-sort cfg.suffixes).1 m)),
        ground arith,
        ground arith,
      )

  pub render_inv :
      {yaml : Text}
      → render sort_slice cfg ≡ ok yaml
      → IsRenderable cfg × (yaml ≡ template (sort_slice (all_routers cfg)))
  unfolding render
  render_inv h =
      let (v, e, k) = >>=-eq-ok (require (not (is_none cfg.suffixes)) suffixes_required) _ h in
      let (w, f, l) = >>=-eq-ok (check_config cfg) _ k in
      let (rs, g, n) =
        >>=-eq-ok (routers (sort cfg.suffixes) cfg.machine_name cfg.tailnet_domain cfg.containers) _
          l in
      let (s, m, t) = check_config_inv f in
      let (fits, q) =
        routers_inv (sort cfg.suffixes) cfg.machine_name cfg.tailnet_domain cfg.containers g in
      (
        record {
          some_suffix = ground arith;
          suffixes = s;
          machine = m;
          tailnet = t;
          containers = fits;
        },
        sym (ok_inj n) ∙ ap (λ x. template (sort_slice x)) q,
      )

  pub render_pass :
      IsRenderable cfg → render sort_slice cfg ≡ ok (template (sort_slice (all_routers cfg)))
  unfolding render
  render_pass r = rw (
    r.some_suffix,
    check_suffixes_pass (sort cfg.suffixes) (λ s m. r.suffixes s ((mem-sort cfg.suffixes).0 m)),
    r.machine,
    r.tailnet,
    routers_pass (sort cfg.suffixes) cfg.machine_name cfg.tailnet_domain cfg.containers
        r.containers,
  )

  -- `Render` returns a text exactly when there is a suffix, all suffixes are safe, machine and tailnet
  -- are each empty or safe, and every container has a safe host name and an address; the text is then
  -- the template over one router for each container. In all other cases it is an error.
  pub render_iff :
      (yaml : Text)
      → (render sort_slice cfg ≡ ok yaml)
        ↔ (IsRenderable cfg × (yaml ≡ template (sort_slice (all_routers cfg))))
  render_iff yaml = (render_inv, λ (r, e). render_pass r ∙ ap ok (sym e))
