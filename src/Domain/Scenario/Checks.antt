-- ===== src/Domain/Scenario/Checks.antt =====
-- provider_simulator/domain/scenario.py: what an accepted update of a scenario is sure to hold, for
-- the endpoint filters and the pause.
use provider_simulator.Base.{
  ℕ, ◌≡◌, ◌≢◌, ◌≤◌, ◌⊎◌, ◌↔◌, inl, inr, refl, String, Bool, true, false, not, List, [], ◌∷◌, any,
  arith, All, eq_iff,
}
use provider_simulator.Base.Int.{pos}
use provider_simulator.Base.Dict.{Dict, string_key}
use provider_simulator.Base.Json.{
  Json, null, num, text, arr, Items, nil, cons, items, is_truthy, is_text, contains,
}
use provider_simulator.Base.Results.{ok, value_error, raise_if}
use provider_simulator.Domain.Config.{check}
use provider_simulator.Domain.Scenario.{
  value_of, is_transport, is_int_between, validate_transport_list, validate_port_list, lacks_http,
  validate_transports, validate_ports, validate_pause, validate_rate_limit_style,
  validate_unreadable_reply, validate_chosen, validate, scenario_config,
  modes_that_never_reach_a_pause,
}

-- A port number that a listener can have.
abbrev pub IsPort : Json → Type 0
IsPort p = (n : ℕ) × (p ≡ num (pos n)) × (1 ≤ n) × (n ≤ 65535)

-- One of the wires.
abbrev pub IsWire : Json → Type 0
IsWire t = (t ≡ text "http") ⊎ ((t ≡ text "http2") ⊎ (t ≡ text "ws"))

IsPort-pass : (p : Json) → is_int_between 1 65535 p ≡ true → IsPort p
unfolding is_int_between
IsPort-pass (num (pos n)) h = (n, refl, ground arith, ground arith)
IsPort-pass p h = absurd (ground arith)

port_fits : (p : Json) → IsPort p → is_int_between 1 65535 p ≡ true
unfolding is_int_between
port_fits p (n, e, low, high) = rw e (ground arith)

text_eq : (s : String) (t : Json) → is_text s t ≡ true → t ≡ text s
text_eq s (text u) h = ground (arith, eq_iff u s)
text_eq s t h = absurd (ground arith)

IsWire-pass : (t : Json) → is_transport t ≡ true → IsWire t
IsWire-pass t h = ground (arith, text_eq "http" t, text_eq "http2" t, text_eq "ws" t)

wire_fits : (t : Json) → IsWire t → is_transport t ≡ true
wire_fits t (inl e) = rw e
wire_fits t (inr (inl e)) = rw e
wire_fits t (inr (inr e)) = rw e

module _ (p : Json → Bool) (P : Json → Type 0) where
  any_pass :
      ((x : Json) → p x ≡ true → P x)
      → (xs : List Json) → any (λ x. not (p x)) xs ≡ false
      → All P xs
  any_pass f [] h = tt
  any_pass f (x ∷ xs) h = (f x (ground arith), any_pass f xs (ground arith))

  any_fits :
      ((x : Json) → P x → p x ≡ true)
      → (xs : List Json) → All P xs
      → any (λ x. not (p x)) xs ≡ false
  any_fits f [] h = refl
  any_fits f (x ∷ xs) h = ground (arith, f x h.0, any_fits f xs h.1)

raise_if_ok : (b : Bool) → raise_if b value_error ≡ ok tt → b ≡ false
raise_if_ok b h = ground arith

-- A list of ports is accepted exactly when it is not empty and each item is a whole number from 1
-- to 65535.
pub validate_port_list_iff :
    (xs : Items) → (validate_port_list (arr xs) ≡ ok tt) ↔ ((items xs ≢ []) × All IsPort (items xs))
unfolding validate_port_list
validate_port_list_iff nil = (λ h. absurd (ground arith), λ h. absurd (h.0 refl))
validate_port_list_iff (cons x xs) = (
  λ h. (
    λ e. ground arith,
    any_pass (is_int_between 1 65535) IsPort IsPort-pass (items (cons x xs)) (raise_if_ok _ h),
  ),
  λ h. rw (any_fits (is_int_between 1 65535) IsPort port_fits (items (cons x xs)) h.1),
)

-- A list of transports is accepted exactly when each item is one of the wires "http", "http2" and
-- "ws".
pub validate_transport_list_iff :
    (xs : Items) → (validate_transport_list (arr xs) ≡ ok tt) ↔ All IsWire (items xs)
unfolding validate_transport_list
validate_transport_list_iff xs = (
  λ h. any_pass is_transport IsWire IsWire-pass (items xs) (raise_if_ok _ h),
  λ h. rw (any_fits is_transport IsWire wire_fits (items xs) h),
)

-- Each of the seven hooks passed.
record IsChecked (cfg : Dict String Json) : Type 0 where
  pub by_transports : validate_transports cfg ≡ ok tt
  pub by_ports : validate_ports cfg ≡ ok tt
  pub by_pause : validate_pause cfg ≡ ok tt
  pub by_style : validate_rate_limit_style cfg ≡ ok tt
  pub by_reply : validate_unreadable_reply cfg ≡ ok tt
  pub by_headers : validate_chosen cfg "reply_headers" ≡ ok tt
  pub by_trailers : validate_chosen cfg "reply_trailers" ≡ ok tt

check_parts : (cfg : Dict String Json) → check scenario_config cfg ≡ ok tt → IsChecked cfg
unfolding check scenario_config validate
check_parts cfg h = ground arith

-- An accepted update that names ports names at least one, and each is a whole number from 1 to
-- 65535; one that names transports names wires of the simulator alone.
pub check_filters :
    (cfg : Dict String Json) (ports wires : Items)
    → check scenario_config cfg ≡ ok tt
    → value_of "ports" cfg ≡ arr ports
    → value_of "transports" cfg ≡ arr wires
    → (items ports ≢ []) × All IsPort (items ports) × All IsWire (items wires)
unfolding validate_ports validate_transports
check_filters cfg ports wires h p w =
    let parts = check_parts cfg h in
    let (some_port, each_port) = (validate_port_list_iff ports).0 (rw p at parts.by_ports) in
    (some_port, each_port, (validate_transport_list_iff wires).0 (rw w at parts.by_transports))

-- The wires leave the HTTP adapter in.
abbrev pub ReachesHttp : Json → Type 0
ReachesHttp wires = (wires ≡ null) ⊎ (contains "http" wires ≡ ok true)

lacks_http_pass : (wires : Json) → lacks_http wires ≡ ok false → ReachesHttp wires
unfolding lacks_http
lacks_http_pass null h = inl refl
lacks_http_pass wires h = inr (ground arith)

mode_pass : (mode : Json) (m : String) → is_text m mode ≡ false → mode ≢ text m
mode_pass mode m h e = ground (arith, eq_iff m m)

-- A pause that an update arms can happen: its mode, where the update has one, is none of those
-- that answer before a reply is written, and its transports leave the HTTP adapter in.
pub check_pause :
    (cfg : Dict String Json)
    → check scenario_config cfg ≡ ok tt
    → is_truthy (value_of "pause_at" cfg) ≡ true
    → All (λ m. value_of "mode" cfg ≢ text m) modes_that_never_reach_a_pause
      × ReachesHttp (value_of "transports" cfg)
unfolding validate_pause
check_pause cfg h armed =
    let passed = (check_parts cfg h).by_pause in
    let mode = value_of "mode" cfg in
    (
      (
        mode_pass mode "down" (ground arith),
        (
          mode_pass mode "hang" (ground arith),
          (
            mode_pass mode "drop_connection" (ground arith),
            (mode_pass mode "port_closed" (ground arith), tt),
          ),
        ),
      ),
      lacks_http_pass (value_of "transports" cfg) (ground arith),
    )
