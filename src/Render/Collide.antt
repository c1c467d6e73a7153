-- ===== src/Render/Collide.antt =====
-- Containers whose host names give one router name.
use mathlib.Core.List.{Memᴰ, Permᴰ, map-append}
use mathlib.Core.List.Permᴰ
use dockerdynomesh.Prelude.{
  ◌≡◌, ap, subst, ◌∙◌, List, [], ◌∷◌, ◌++◌, map, IsDistinct, IsDistinct-perm,
}
use dockerdynomesh.Prelude.Result.{ok}
use dockerdynomesh.Prelude.Sort.{sort}
use dockerdynomesh.Text.{Text, dots_to_hyphens}
use dockerdynomesh.Text.Order.{text_order}
use dockerdynomesh.Render.{Container, Config, RenderRouter, router_of, template, render}
use dockerdynomesh.Render.Success.{all_routers, render_iff}

-- The keys that the template writes under `services:`.
abbrev pub service_keys : List RenderRouter → List Text
service_keys = map (λ r. r.name)

mem-service_keys :
    (name : Text) (xs : List RenderRouter) (r : RenderRouter) (ys : List RenderRouter)
    → name ≡ r.name
    → Memᴰ name (service_keys (xs ++ (r ∷ ys)))
mem-service_keys name [] r ys e = Memᴰ.head e
mem-service_keys name (x ∷ xs) r ys e = Memᴰ.tail (mem-service_keys name xs r ys e)

not-IsDistinct_keys :
    (ws xs ys : List RenderRouter) (q r : RenderRouter)
    → q.name ≡ r.name
    → ¬ IsDistinct (service_keys (ws ++ (q ∷ (xs ++ (r ∷ ys)))))
not-IsDistinct_keys [] xs ys q r e (n, d) = n (mem-service_keys q.name xs r ys e)
not-IsDistinct_keys (w ∷ ws) xs ys q r e (n, d) = not-IsDistinct_keys ws xs ys q r e d

-- Where two containers of an accepted configuration have host names that differ at most in dots
-- against hyphens, the text is the template over sorted routers that give one key twice under
-- `services:`.
pub service_keys_collide :
    (sort_slice : List RenderRouter → List RenderRouter) (cfg : Config) (yaml : Text)
    (xs ys zs : List Container) (c d : Container)
    → ((rs : List RenderRouter) → Permᴰ (sort_slice rs) rs)
    → render sort_slice cfg ≡ ok yaml
    → cfg.containers ≡ xs ++ (c ∷ (ys ++ (d ∷ zs)))
    → dots_to_hyphens c.hostname ≡ dots_to_hyphens d.hostname
    → (yaml ≡ template (sort_slice (all_routers cfg)))
      × (¬ IsDistinct (service_keys (sort_slice (all_routers cfg))))
service_keys_collide sort_slice cfg yaml xs ys zs c d perm ok_yaml e h =
    let build = router_of (sort cfg.suffixes) cfg.machine_name cfg.tailnet_domain in
    let split =
      ap (map build) e
      ∙ map-append build xs _
      ∙ ap (λ t. map build xs ++ (build c ∷ t)) (map-append build ys _) in
    let twice =
      not-IsDistinct_keys (map build xs) (map build ys) (map build zs) (build c) (build d) h in
    (
      ((render_iff sort_slice cfg yaml).0 ok_yaml).1,
      λ distinct. twice (
          subst (λ rs. IsDistinct (service_keys rs)) split
            (IsDistinct-perm (Permᴰ.map (λ r. r.name) (perm (all_routers cfg))) distinct)),
    )
