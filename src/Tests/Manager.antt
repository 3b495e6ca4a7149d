-- ===== src/Tests/Manager.antt =====
-- Concrete calls of the manager of providers: one provider with two proxies.
use proxy_gateway.Prelude.{◌≡◌, refl, true, false, List, [], ◌∷◌, none, some, pos}
use proxy_gateway.Prelude.Dict.{lookup}
use proxy_gateway.Config.{ProviderCfg}
use proxy_gateway.Pool.State.{Pool}
use proxy_gateway.Pool.Coherent.{Coherent}
use proxy_gateway.Manager.{
  Fetch, fetched, ManagedProvider, Manager, new_provider, ip_pool, managed, manage_all, new_manager,
}
use proxy_gateway.Manager.Change.{add_provider, remove_provider}
use proxy_gateway.Manager.Keeps.{IsSound}
use proxy_gateway.Manager.History.{
  Op, adds_provider, removes_provider, perform, perform_all, perform_all-new_manager-IsSound,
}
use proxy_gateway.Manager.Refuse.{refuses, perform-refuses}
use proxy_gateway.Manager.Purge.{IsWithout, remove_provider-IsWithout}
use proxy_gateway.Manager.Report.{enrich_once}
use proxy_gateway.Manager.Enrich.{enrich_once-Coherent}
use proxy_gateway.Tests.{milli, ready, ready-Coherent, sample, program}

abbrev pub paid : ProviderCfg
paid = record {
  name = "paid";
  provider_type = "ip_pool";
  enabled = true;
  weight = pos 2;
  priority = pos 0;
  check_interval_s = pos 0;
  min_alive_ratio = 0;
  sticky_seconds = pos 0;
  check_url = "";
  check_urls = [];
  country = "";
  urls = [];
  tunnel = none;
  ip_pool = none;
  free = none;
  owner = "";
  is_public = false;
}

abbrev empty : Manager
empty = record { pool = ready; provs = []; file = none }

abbrev loaded : Fetch
loaded = fetched (some (sample "c" (pos 2) ∷ sample "d" (pos 1) ∷ []))

abbrev ops : List Op
ops =
    adds_provider true loaded paid
    ∷ adds_provider true loaded paid
    ∷ removes_provider true "paid"
    ∷ []

abbrev fresh : Manager
fresh = record { pool = proxy_gateway.Pool.State.new_pool; provs = []; file = none }

perform_all-new_manager-IsSound_example : IsSound (perform_all fresh ops)
unfolding new_manager manage_all
perform_all-new_manager-IsSound_example =
    perform_all-new_manager-IsSound [] ops (tt, (tt, (tt, tt))) refl

abbrev held : ManagedProvider
held = managed (ip_pool paid) paid (pos 2)

abbrev one : Manager
one = record { pool = ready; provs = ("paid", held) ∷ []; file = none }

one-IsSound : IsSound one
unfolding lookup
one-IsSound = record { coherent = ready-Coherent; distinct = (refl, tt); well_named = (refl, tt) }

perform-refuses_example : (perform one (adds_provider true loaded paid)).0 ≡ one
unfolding perform add_provider refuses new_provider lookup
perform-refuses_example = perform-refuses one (adds_provider true loaded paid) refl

remove_provider-IsWithout_example :
    ((remove_provider true one "paid").1 ≡ none)
    × (lookup "paid" (remove_provider true one "paid").0.provs ≡ none)
    × IsWithout "paid" ready (remove_provider true one "paid").0.pool
unfolding lookup
remove_provider-IsWithout_example = remove_provider-IsWithout true one "paid" one-IsSound refl

enrich_once-Coherent_example :
    Coherent (enrich_once (λ ip. true) none [] ready).0
    × (lookup "a" (enrich_once (λ ip. true) none [] ready).0.proxies ≡ some (sample "a" (pos 2)))
unfolding program
enrich_once-Coherent_example =
    enrich_once-Coherent (λ ip. true) none [] ready "a" ready-Coherent refl refl
