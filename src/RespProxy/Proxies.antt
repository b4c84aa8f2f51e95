-- ===== src/RespProxy/Proxies.antt =====
-- provider_simulator/resp_proxy.py: the proxies of one simulator, by name. A restore that has to wait
-- for a running cut-off is taken at the end of the waiting.
use provider_simulator.Base.{String, Option, List, [], ◌∷◌, map}
use provider_simulator.Base.Dict
use provider_simulator.Base.Dict.{Dict, string_key}
use provider_simulator.Base.Int.{pos}
use provider_simulator.Base.Results.{ok, err}
use provider_simulator.Base.Sort.{sorted}
use provider_simulator.RespProxy.{Proxy, new_proxy, restore, set_latency}

-- The host, the port and the idle time of a proxy belong to its sockets, and are left out.
unfoldable pub add_proxy : String → Dict String Proxy → Dict String Proxy
add_proxy name proxies = Dict.put name new_proxy proxies

unfoldable pub get_proxy : String → Dict String Proxy → Option Proxy
get_proxy name proxies = Dict.get name proxies

unfoldable pub proxy_names : Dict String Proxy → List String
proxy_names proxies = sorted (map (λ (name, proxy). name) proxies)

unfoldable pub restore_all : Dict String Proxy → Dict String Proxy
restore_all [] = []
restore_all ((name, proxy) ∷ rest) = (name, restore proxy) ∷ restore_all rest

abbrev pub without_latency : Proxy → Proxy
without_latency p = elim (set_latency (pos 0) p) [ err e ↦ p | ok (latency_ms, p') ↦ p' ]

unfoldable pub clear_latency_all : Dict String Proxy → Dict String Proxy
clear_latency_all [] = []
clear_latency_all ((name, proxy) ∷ rest) = (name, without_latency proxy) ∷ clear_latency_all rest
