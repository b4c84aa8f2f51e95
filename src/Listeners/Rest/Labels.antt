-- ===== src/Listeners/Rest/Labels.antt =====
-- provider_simulator/listeners/rest.py: the labels of the REST listener.
use provider_simulator.Base.{refl, ◌&&◌, leb, ltb, nat_eq}
use provider_simulator.Listeners.JsonRpc.Replies.{success_label_apart}
use provider_simulator.Listeners.Listener.Outcomes.{IsLabelling, apart, if_apart}
use provider_simulator.Listeners.Rest.{Calls, is_unknown, listener}

-- The REST listener labels no reply as one in flight.
pub listener-IsLabelling : (calls : Calls) → IsLabelling (listener calls)
listener-IsLabelling calls = record {
  direct_label = λ request result method label rid h. cc;
  content_label = λ status body q.
      if_apart (nat_eq status 404 && is_unknown q.template) "not_found" _ "in_flight"
        (apart "not_found" "in_flight" refl)
        (if_apart (leb 200 status && ltb status 300) _ "error" "in_flight"
          (success_label_apart body) (apart "error" "in_flight" refl));
  corrupt_label = λ result label s h. h;
}
