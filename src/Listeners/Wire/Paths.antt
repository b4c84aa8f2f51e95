-- ===== src/Listeners/Wire/Paths.antt =====
-- provider_simulator/listeners/wire.py: what a dotted path removes.
use provider_simulator.Base.{
  ℕ, suc, zero, ◌≤◌, ◌<◌, ◌≡◌, refl, ap, sym, ◌∙◌, subst, Bool, true, false, Option, none, some,
  List, [], ◌∷◌, ◌++◌, All, length, nat_eq, arith, length-append, Bool-cases, inl, inr,
}
use provider_simulator.Base.Json.{Json, null, bool, num, real, text, arr, obj, Fields, end, field}
use provider_simulator.Listeners.Wire.{
  remove_field, get_field, set_field, onto_first, split, join, set_inner, remove_dotted, remove_at,
}

-- The same by the segments of the path, each level once. An empty path, as after a last dot, removes
-- nothing.
unfoldable pub remove_path : List (List ℕ) → Fields → Fields
remove_path [] fs = fs
remove_path ([] ∷ []) fs = fs
remove_path ((c ∷ cs) ∷ []) fs = remove_field (c ∷ cs) fs
remove_path (s ∷ t ∷ ss) fs = set_inner s fs (get_field s fs) (remove_path (t ∷ ss))

-- No dot in a segment.
abbrev IsSegment : List ℕ → Type 0
IsSegment s = All (λ c. nat_eq c b'.' ≡ false) s

onto_first-IsSegment :
    (c : ℕ) (ss : List (List ℕ))
    → nat_eq c b'.' ≡ false
    → All IsSegment ss
    → All IsSegment (onto_first c ss)
onto_first-IsSegment c [] h all = ((h, tt), tt)
onto_first-IsSegment c (s ∷ ss) h all = ((h, all.0), all.1)

split-IsSegment : (path : List ℕ) → All IsSegment (split path)
unfolding split
split-IsSegment [] = (tt, tt)
split-IsSegment (c ∷ cs) = elim (Bool-cases (nat_eq c b'.')) [
  | inl dot ↦ rw (dot, split) (tt, split-IsSegment cs)
  | inr other ↦ rw (other, split) (onto_first-IsSegment c (split cs) other (split-IsSegment cs))
]

split_segment : (s : List ℕ) → IsSegment s → split s ≡ s ∷ []
unfolding split
split_segment [] h = refl
split_segment (c ∷ cs) h = rw (h.0, split_segment cs h.1) refl

split_dot : (s path : List ℕ) → IsSegment s → split (s ++ (b'.' ∷ path)) ≡ s ∷ split path
unfolding split
split_dot [] path h = refl
split_dot (c ∷ cs) path h = rw (h.0, split_dot cs path h.1) refl

split-join :
    (s : List ℕ) (ss : List (List ℕ)) → All IsSegment (s ∷ ss) → split (join (s ∷ ss)) ≡ s ∷ ss
unfolding join
split-join s [] h = split_segment s h.0
split-join s (t ∷ ss) h =
    split_dot s (join (t ∷ ss)) h.0 ∙ ap (λ (l : List (List ℕ)). s ∷ l) (split-join t ss h.1)

join-onto_first : (c : ℕ) (ss : List (List ℕ)) → join (onto_first c ss) ≡ c ∷ join ss
unfolding join
join-onto_first c [] = refl
join-onto_first c (s ∷ []) = refl
join-onto_first c (s ∷ t ∷ ss) = refl

split-cons : (path : List ℕ) → (s : List ℕ) × (ss : List (List ℕ)) × (split path ≡ s ∷ ss)
unfolding split
split-cons [] = ([], [], refl)
split-cons (c ∷ cs) = elim (Bool-cases (nat_eq c b'.')) [
  | inl dot ↦ ([], split cs, rw (dot, split) refl)
  | inr other ↦ let (s, ss, parts) = split-cons cs in (c ∷ s, ss, rw (split, other, parts) refl)
]

join-nil :
    (ss : List (List ℕ)) (s : List ℕ) (rest : List (List ℕ))
    → ss ≡ s ∷ rest
    → join ([] ∷ ss) ≡ b'.' ∷ join ss
unfolding join
join-nil [] s rest h = absurd cc
join-nil (t ∷ ts) s rest h = refl

join-split : (path : List ℕ) → join (split path) ≡ path
unfolding split
join-split [] = unfold join in refl
join-split (c ∷ cs) = elim (Bool-cases (nat_eq c b'.')) [
  | inl dot ↦
      let (s, ss, parts) = split-cons cs in
      rw (dot, split)
        (join-nil (split cs) s ss parts
          ∙ ap (λ (p : List ℕ). b'.' ∷ p) (join-split cs)
          ∙ ap (λ (d : ℕ). d ∷ cs) (ground (arith, dot)))
  | inr other ↦
      rw (other, split) (join-onto_first c (split cs) ∙ ap (λ (p : List ℕ). c ∷ p) (join-split cs))
]

set_inner-eq :
    (s : List ℕ) (fs : Fields) (o : Option Json) (f g : Fields → Fields)
    → ((inner : Fields) → f inner ≡ g inner)
    → set_inner s fs o f ≡ set_inner s fs o g
set_inner-eq s fs none f g h = refl
set_inner-eq s fs (some (obj inner)) f g h = ap (λ (t : Fields). set_field s (obj t) fs) (h inner)
set_inner-eq s fs (some v) f g h = refl

length-join :
    (s t : List ℕ) (ts : List (List ℕ)) → length (join (t ∷ ts)) < length (join (s ∷ t ∷ ts))
unfolding join
length-join s t ts = omega (arith, length-append s (b'.' ∷ join (t ∷ ts)))

-- By the cases of the segments.
remove_dotted_last :
    (fuel c : ℕ) (cs s : List ℕ) (fs : Fields)
    → split (c ∷ cs) ≡ s ∷ []
    → remove_dotted (suc fuel) (c ∷ cs) fs ≡ remove_field s fs
unfolding remove_dotted
remove_dotted_last fuel c cs s fs parts = rw (parts, remove_dotted) refl

remove_dotted_inner :
    (fuel c : ℕ) (cs s t : List ℕ) (ts : List (List ℕ)) (fs : Fields)
    → split (c ∷ cs) ≡ s ∷ t ∷ ts
    → remove_dotted (suc fuel) (c ∷ cs) fs
      ≡ set_inner s fs (get_field s fs) (remove_dotted fuel (join (t ∷ ts)))
unfolding remove_dotted
remove_dotted_inner fuel c cs s t ts fs parts = rw (parts, remove_dotted) refl

remove_path_last :
    (c : ℕ) (cs s : List ℕ) (fs : Fields) → s ≡ c ∷ cs → remove_path (s ∷ []) fs ≡ remove_field s fs
unfolding remove_path
remove_path_last c cs [] fs h = absurd cc
remove_path_last c cs (d ∷ ds) fs h = refl

remove_path_inner :
    (s t : List ℕ) (ts : List (List ℕ)) (fs : Fields)
    → remove_path (s ∷ t ∷ ts) fs ≡ set_inner s fs (get_field s fs) (remove_path (t ∷ ts))
unfolding remove_path
remove_path_inner [] t ts fs = refl
remove_path_inner (c ∷ cs) t ts fs = refl

-- One level, when the levels below are right.
level :
    (fuel c : ℕ) (cs s : List ℕ) (ss : List (List ℕ)) (fs : Fields)
    → split (c ∷ cs) ≡ s ∷ ss
    → length (c ∷ cs) ≤ fuel
    → ((path : List ℕ) (inner : Fields)
        → length path < fuel
        → remove_dotted fuel path inner ≡ remove_path (split path) inner)
    → remove_dotted (suc fuel) (c ∷ cs) fs ≡ remove_path (s ∷ ss) fs
level fuel c cs s [] fs parts h below =
    let joined : join (s ∷ []) ≡ s = unfold join in refl in
    let whole : s ≡ c ∷ cs = sym joined ∙ sym (ap join parts) ∙ join-split (c ∷ cs) in
    remove_dotted_last fuel c cs s fs parts ∙ sym (remove_path_last c cs s fs whole)
level fuel c cs s (t ∷ ts) fs parts h below =
    let whole : join (s ∷ t ∷ ts) ≡ c ∷ cs = sym (ap join parts) ∙ join-split (c ∷ cs) in
    let dotless : All IsSegment (s ∷ t ∷ ts) =
      subst (All IsSegment) parts (split-IsSegment (c ∷ cs)) in
    let shorter : length (join (t ∷ ts)) < fuel =
      omega (arith, h, length-join s t ts, ap length whole) in
    remove_dotted_inner fuel c cs s t ts fs parts
    ∙ set_inner-eq s fs (get_field s fs) (remove_dotted fuel (join (t ∷ ts))) (remove_path (t ∷ ts))
        (λ inner.
          below (join (t ∷ ts)) inner shorter
          ∙ ap (λ (l : List (List ℕ)). remove_path l inner) (split-join t ts dotless.1))
    ∙ sym (remove_path_inner s t ts fs)

remove_dotted_lem :
    (fuel : ℕ) (path : List ℕ) (fs : Fields)
    → length path < fuel
    → remove_dotted fuel path fs ≡ remove_path (split path) fs
remove_dotted_lem zero path fs h = absurd (omega (arith, h))
remove_dotted_lem (suc fuel) [] fs h = unfold remove_dotted remove_path split in refl
remove_dotted_lem (suc fuel) (c ∷ cs) fs h =
    let (s, ss, parts) = split-cons (c ∷ cs) in
    level fuel c cs s ss fs parts (omega (arith, h)) (remove_dotted_lem fuel)
    ∙ ap (λ (l : List (List ℕ)). remove_path l fs) (sym parts)

-- What stands at the end of a path.
unfoldable pub get_path : List (List ℕ) → Fields → Option Json
get_path [] fs = none
get_path (s ∷ []) fs = get_field s fs
get_path (s ∷ t ∷ ss) fs = elim (get_field s fs) [
  | none ↦ none
  | some v ↦ elim v [ obj inner ↦ get_path (t ∷ ss) inner | _ ↦ none ]
]

abbrev is_nil : List ℕ → Bool
is_nil [] = true
is_nil (c ∷ cs) = false

abbrev pub ends_empty : List (List ℕ) → Bool
ends_empty [] = true
ends_empty (s ∷ []) = is_nil s
ends_empty (s ∷ t ∷ ss) = ends_empty (t ∷ ss)

get_field-remove_field : (s : List ℕ) (fs : Fields) → get_field s (remove_field s fs) ≡ none
get_field-remove_field s end = refl
get_field-remove_field s (field k v fs) = ground (arith, get_field-remove_field s fs)

get_field-set_field :
    (s : List ℕ) (v w : Json) (fs : Fields)
    → get_field s fs ≡ some v
    → get_field s (set_field s w fs) ≡ some w
get_field-set_field s v w end h = absurd cc
get_field-set_field s v w (field k u fs) h = ground (arith, get_field-set_field s v w fs)

get_path_of_field :
    (s t : List ℕ) (ss : List (List ℕ)) (fs : Fields) (o : Option Json)
    → get_field s fs ≡ o
    → ((inner : Fields) → get_path (t ∷ ss) (remove_path (t ∷ ss) inner) ≡ none)
    → get_path (s ∷ t ∷ ss) (set_inner s fs o (remove_path (t ∷ ss))) ≡ none
unfolding get_path
get_path_of_field s t ss fs none h below = rw (get_path, h) refl
get_path_of_field s t ss fs (some (obj inner)) h below =
    rw (get_path, get_field-set_field s (obj inner) (obj (remove_path (t ∷ ss) inner)) fs h)
      (below inner)
get_path_of_field s t ss fs (some null) h below = rw (get_path, h) refl
get_path_of_field s t ss fs (some (bool b)) h below = rw (get_path, h) refl
get_path_of_field s t ss fs (some (num n)) h below = rw (get_path, h) refl
get_path_of_field s t ss fs (some (real r x)) h below = rw (get_path, h) refl
get_path_of_field s t ss fs (some (text x)) h below = rw (get_path, h) refl
get_path_of_field s t ss fs (some (arr xs)) h below = rw (get_path, h) refl

get_path-remove_path :
    (ss : List (List ℕ)) (fs : Fields)
    → ends_empty ss ≡ false
    → get_path ss (remove_path ss fs) ≡ none
get_path-remove_path [] fs h = absurd cc
get_path-remove_path ([] ∷ []) fs h = absurd cc
get_path-remove_path ((c ∷ cs) ∷ []) fs h =
    unfold get_path remove_path in get_field-remove_field (c ∷ cs) fs
get_path-remove_path (s ∷ t ∷ ss) fs h =
    ap (get_path (s ∷ t ∷ ss)) (remove_path_inner s t ss fs)
    ∙ get_path_of_field s t ss fs (get_field s fs) refl
        (λ inner. get_path-remove_path (t ∷ ss) inner h)

-- After a path that does not end in a dot was removed from an object, nothing stands at its end: no
-- level of the path is skipped, however many there are.
pub get_path-remove_at :
    (path : List ℕ) (fs : Fields)
    → ends_empty (split path) ≡ false
    → get_path (split path) (remove_at path fs) ≡ none
get_path-remove_at path fs h =
    ap (get_path (split path)) (remove_dotted_lem (suc (length path)) path fs (omega arith))
    ∙ get_path-remove_path (split path) fs h

-- The recursion that joins the rest of the path and splits it again does what one split of the path
-- and a descent along the segments do, and as many levels as the path has characters are enough.
pub remove_at-split :
    (path : List ℕ) (fs : Fields) → remove_at path fs ≡ remove_path (split path) fs
remove_at-split path fs = remove_dotted_lem (suc (length path)) path fs (omega arith)
