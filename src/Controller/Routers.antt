-- ===== src/Controller/Routers.antt =====
-- internal/controller/apply.go: the routers are all transformed before one is applied.
pub mod Failing
use pangolin_kube_controller.Prelude.{[], ◌∷◌}
use pangolin_kube_controller.Result.{Result, ok, ◌>>=◌}
use pangolin_kube_controller.Maps.{Map}
use pangolin_kube_controller.Json.{Fields, Codec}
use pangolin_kube_controller.Sanitize.Config.{Raw}
use pangolin_kube_controller.Routing.{RouterConfig, transform_router_to_ingress_route}
use pangolin_kube_controller.Config.{Config}

module _ (codec : Codec) (cfg : Config) where
  abbrev pub router_cfg : RouterConfig
  router_cfg = record {
    namespace = cfg.namespace;
    managed_label_key = cfg.managed_label_key;
    managed_label_value = cfg.managed_label_value;
    managed_anno_key = cfg.managed_anno_key;
    managed_anno_value = cfg.managed_anno_value;
    ingress_class = cfg.ingress_class;
  }

  -- The first loop of `reconcileRouters`. The errors are joined there; the first one stands for
  -- them here.
  unfoldable pub transform_routers : Map Raw → Result (Map Fields)
  transform_routers [] = ok []
  transform_routers ((name, raw) ∷ routers) = do
    u ← transform_router_to_ingress_route codec name raw router_cfg
    rest ← transform_routers routers
    ok ((name, u) ∷ rest)
