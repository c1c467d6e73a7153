-- ===== src/Examples/Rendering.antt =====
-- The rendered configuration.
use mathlib.Core.List.{Memᴰ}
use mathlib.Core.List.Permᴰ
use dockerdynomesh.Prelude.{◌≡◌, refl, ◌↔◌, true, List, [], ◌∷◌, IsDistinct}
use dockerdynomesh.Prelude.Sort.{sort}
use dockerdynomesh.Prelude.Result.{ok}
use dockerdynomesh.Text.{Text, codes, dots_to_hyphens}
use dockerdynomesh.Text.Label.{matches_label}
use dockerdynomesh.Text.Order.{text_order}
use dockerdynomesh.Render.{Container, router_of, Config, RenderRouter, host_names, template, render}
use dockerdynomesh.Render.Success.{IsRoutable, IsRenderable, all_routers, render_iff}
use dockerdynomesh.Render.Hosts.{quoted, quoted-router}
use dockerdynomesh.Render.Collide.{service_keys, service_keys_collide}
use dockerdynomesh.Examples.Data.{suffixes}

abbrev container : Text → Container
container host = record {
  project = [];
  service = [];
  name = [];
  hostname = host;
  address = codes "10.0.0.2:80";
}

abbrev keep : List RenderRouter → List RenderRouter
keep rs = rs

-- Two hosts that differ in a dot against a hyphen.
abbrev config : Config
config = record {
  suffixes = suffixes;
  machine_name = [];
  tailnet_domain = [];
  containers = container (codes "a.b") ∷ container (codes "a-b") ∷ [];
}

abbrev yaml : Text
yaml = template (keep (all_routers config))

suffixes_safe : (s : Text) → Memᴰ s suffixes → matches_label s ≡ true
unfolding matches_label
suffixes_safe s (Memᴰ.head e) = rw e refl
suffixes_safe s (Memᴰ.tail m) = elim m [ ]

containers-IsRoutable : (c : Container) → Memᴰ c config.containers → IsRoutable c
unfolding matches_label
containers-IsRoutable c (Memᴰ.head e) = rw e (record { safe = refl; addressed = refl })
containers-IsRoutable c (Memᴰ.tail (Memᴰ.head e)) = rw e (record { safe = refl; addressed = refl })
containers-IsRoutable c (Memᴰ.tail (Memᴰ.tail m)) = elim m [ ]

config-IsRenderable : IsRenderable config
config-IsRenderable = record {
  some_suffix = refl;
  suffixes = suffixes_safe;
  machine = refl;
  tailnet = refl;
  containers = containers-IsRoutable;
}

render_iff_example :
    (render keep config ≡ ok yaml)
    ↔ (IsRenderable config × (yaml ≡ template (keep (all_routers config))))
render_iff_example = render_iff keep config yaml

rendered : render keep config ≡ ok yaml
rendered = (render_iff keep config yaml).1 (config-IsRenderable, refl)

abbrev first_router : RenderRouter
first_router = router_of (sort suffixes) [] [] (container (codes "a.b"))

quoted-router_example :
    (c : Container) × Memᴰ c config.containers
    × (quoted first_router.rule ≡ host_names (sort suffixes) [] [] c.hostname)
quoted-router_example = quoted-router keep config yaml rendered first_router (Memᴰ.head refl)

one_name : dots_to_hyphens (codes "a.b") ≡ dots_to_hyphens (codes "a-b")
unfolding dots_to_hyphens
one_name = refl

service_keys_collide_example :
    (yaml ≡ template (keep (all_routers config)))
    × (¬ IsDistinct (service_keys (keep (all_routers config))))
service_keys_collide_example =
    service_keys_collide keep config yaml [] [] [] (container (codes "a.b"))
      (container (codes "a-b")) Permᴰ.refl rendered refl one_name
