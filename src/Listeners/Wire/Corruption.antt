-- ===== src/Listeners/Wire/Corruption.antt =====
-- provider_simulator/listeners/wire.py: what each corruption leaves of a reply.
use provider_simulator.Base.{
  ℕ, ◌≡◌, refl, String, Bool, true, false, not, ◌&&◌, Option, none, some, List, [], arith, ◌==◌,
  eq_iff, if◌then◌else◌, subst, sym, Bool-cases, inl, inr,
}
use provider_simulator.Base.Json.{Json, null, bool, num, real, text, arr, obj}
use provider_simulator.Listeners.Wire.{Encoder, finish, body_reply, serialize, is_mode}

finish_emits :
    (status : ℕ) (mode : Option String) (raw : List ℕ)
    → ((finish status mode raw).0 ≡ status) × ((finish status mode raw).2 ≡ true)
unfolding finish
finish_emits status mode raw = ground arith

abbrev IsSent : ℕ → Bool → ℕ × List ℕ × Bool → Type 0
IsSent status sent reply = (reply.0 ≡ status) × (reply.2 ≡ sent)

-- Three branches for an object: the second one, with no body, is taken when its test holds and that
-- of the first does not.
object_reply :
    (status : ℕ) (first second third : Bool) (a b c : ℕ × List ℕ × Bool)
    → (second ≡ true → first ≡ false)
    → IsSent status true a
    → IsSent status true b
    → IsSent status true c
    → IsSent status
        (not second)
        (if first then a else if second then (status, [], false) else if third then b else c)
object_reply status true true third a b c apart ha hb hc = absurd (ground (arith, apart refl))
object_reply status true false third a b c apart ha hb hc = ha
object_reply status false true third a b c apart ha hb hc = (refl, refl)
object_reply status false false true a b c apart ha hb hc = hb
object_reply status false false false a b c apart ha hb hc = hc

text_reply :
    (status : ℕ) (empty : Bool) (a : ℕ × List ℕ × Bool)
    → IsSent status true a
    → IsSent status (not empty) (if empty then (status, [], false) else a)
text_reply status true a h = (refl, refl)
text_reply status false a h = h

modes_apart :
    (mode : Option String) (test : Bool)
    → is_mode "empty_response" mode ≡ true
    → (is_mode "missing_field" mode && test) ≡ false
modes_apart none test h = refl
modes_apart (some mode) test h =
    let named : mode ≡ "empty_response" = ground (arith, eq_iff mode "empty_response", h) in
    subst (λ (m : String). (m == "missing_field" && test) ≡ false) (sym named) refl

-- The body is left out.
abbrev pub is_left_out : Option String → Json → Bool
is_left_out mode (obj fs) = is_mode "empty_response" mode
is_left_out mode (text s) = is_mode "empty_response" mode
is_left_out mode _ = false

body_reply-IsSent :
    (lib : Encoder) (status : ℕ) (body : Json) (mode : Option String) (missing : String)
    (dotted : Bool)
    → IsSent status (not (is_left_out mode body)) (body_reply lib status body mode missing dotted)
unfolding body_reply
body_reply-IsSent lib status (obj fs) mode missing dotted =
    object_reply status (is_mode "missing_field" mode && not (missing == ""))
      (is_mode "empty_response" mode) (is_mode "wrong_type" mode) _ _ _
      (modes_apart mode (not (missing == ""))) (finish_emits status mode _)
      (finish_emits status mode _) (finish_emits status mode _)
body_reply-IsSent lib status (text s) mode missing dotted =
    text_reply status (is_mode "empty_response" mode) _ (finish_emits status mode _)
body_reply-IsSent lib status null mode missing dotted = finish_emits status mode _
body_reply-IsSent lib status (bool b) mode missing dotted = finish_emits status mode _
body_reply-IsSent lib status (num n) mode missing dotted = finish_emits status mode _
body_reply-IsSent lib status (real r s) mode missing dotted = finish_emits status mode _
body_reply-IsSent lib status (arr xs) mode missing dotted = finish_emits status mode _

not_left_out :
    (mode : Option String) (body : Json)
    → is_mode "null_body" mode ≡ true
    → is_left_out mode body ≡ false
not_left_out none (obj fs) h = refl
not_left_out (some mode) (obj fs) h =
    let named : mode ≡ "null_body" = ground (arith, eq_iff mode "null_body", h) in
    subst (λ (m : String). (m == "empty_response") ≡ false) (sym named) refl
not_left_out none (text s) h = refl
not_left_out (some mode) (text s) h =
    let named : mode ≡ "null_body" = ground (arith, eq_iff mode "null_body", h) in
    subst (λ (m : String). (m == "empty_response") ≡ false) (sym named) refl
not_left_out mode null h = refl
not_left_out mode (bool b) h = refl
not_left_out mode (num n) h = refl
not_left_out mode (real r s) h = refl
not_left_out mode (arr xs) h = refl

-- The status is never changed, and the body is left out in one case alone: an object or a text
-- under the corruption "empty_response".
pub serialize-is_left_out :
    (lib : Encoder) (status : ℕ) (body : Json) (mode : Option String) (missing : String)
    (dotted : Bool)
    → ((serialize lib status body mode missing dotted).0 ≡ status)
      × ((serialize lib status body mode missing dotted).2 ≡ not (is_left_out mode body))
unfolding serialize
serialize-is_left_out lib status body mode missing dotted =
    elim (Bool-cases (is_mode "null_body" mode)) [
      | inl null_body ↦ rw (serialize, null_body, not_left_out mode body null_body) (refl, refl)
      | inr other ↦ rw (serialize, other) (body_reply-IsSent lib status body mode missing dotted)
    ]
