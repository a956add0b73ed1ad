-- ===== src/Validation/EventTypes.antt =====
-- The normal form of EventTypes of endpoint-service/internal/validation/validation.go, and which
-- values the other rules accept.
use hookyard.Base.{
  ◌≡◌, refl, subst, Bytes, bytes_eq, bytes_eq_iff, Bool, true, false, List, [], ◌∷◌, ◌++◌,
  if◌then◌else◌, if_rule, All, All-append, exists, exists-append_left, exists-append_last, arith,
}
use hookyard.Base.Session.{Error, Result, ok, err}
use hookyard.Validation.Rules.{matches_event_type, collect, event_types}
use hookyard.Base.Trim.{trim_space}

-- No two elements are equal.
abbrev pub Unique : List Bytes → Type 0
Unique [] = Unit
Unique (x ∷ xs) = (exists (bytes_eq x) xs ≡ false) × Unique xs

-- What EventTypes makes of its argument.
pub record IsNormal (types out : List Bytes) : Type 0 where
  pub unique : Unique out
  pub valid : All (λ v. matches_event_type v ≡ true) out
  pub complete : All (λ raw. exists (bytes_eq (trim_space raw)) out ≡ true) types

bytes_eq_refl : (v : Bytes) → bytes_eq v v ≡ true
bytes_eq_refl v = (bytes_eq_iff v v).1 refl

exists-append_none :
    (p : Bytes → Bool) (xs : List Bytes) (v : Bytes)
    → exists p xs ≡ false
    → p v ≡ false
    → exists p (xs ++ v ∷ []) ≡ false
unfolding exists
exists-append_none p [] v h k = ground arith
exists-append_none p (x ∷ xs) v h k = ground (arith, exists-append_none p xs v)

differ : (v x : Bytes) → bytes_eq v x ≡ false → bytes_eq x v ≡ false
differ v x h = ground (arith, bytes_eq_iff v x, bytes_eq_iff x v)

Unique-append :
    (out : List Bytes) (v : Bytes)
    → exists (bytes_eq v) out ≡ false
    → Unique out
    → Unique (out ++ v ∷ [])
unfolding exists
Unique-append [] v h u = (refl, tt)
Unique-append (x ∷ xs) v h u = (
  exists-append_none (bytes_eq x) xs v u.0 (differ v x (ground arith)),
  Unique-append xs v (ground arith) u.1,
)

-- What the loop keeps of the slice.
Good : List Bytes → Type 0
Good out = Unique out × All (λ v. matches_event_type v ≡ true) out

added : Bytes → List Bytes → List Bytes
added v out = if exists (bytes_eq v) out then out else out ++ v ∷ []

added-Good :
    (v : Bytes) (out : List Bytes) → matches_event_type v ≡ true → Good out → Good (added v out)
unfolding added Good
added-Good v out m g =
    if_rule Good (exists (bytes_eq v) out) out (out ++ v ∷ []) (λ seen. g)
      (λ new. (Unique-append out v new g.0, All-append _ out _ g.1 (m, tt)))

-- What is in the slice stays in it.
Within : List Bytes → List Bytes → Type 0
Within out res = (v : Bytes) → exists (bytes_eq v) out ≡ true → exists (bytes_eq v) res ≡ true

added-Within :
    (v : Bytes) (out : List Bytes)
    → Within out (added v out) × (exists (bytes_eq v) (added v out) ≡ true)
unfolding added Within
added-Within v out =
    if_rule (λ o. Within out o × (exists (bytes_eq v) o ≡ true)) (exists (bytes_eq v) out) out
      (out ++ v ∷ []) (λ seen. ((λ w h. h), seen))
      (λ new. (
        (λ w h. exists-append_left (bytes_eq w) out _ h),
        exists-append_last (bytes_eq v) out v (bytes_eq_refl v),
      ))

-- A check that let a value through.
passed :
    {A : Type 0} (b : Bool) (r : Result A) (x : Error) (a : A)
    → (if b then r else err x) ≡ ok a
    → (b ≡ true) × (r ≡ ok a)
passed true r x a e = (refl, e)
passed false r x a e = cc

collect-Good :
    (out types res : List Bytes)
    → collect out types ≡ ok res
    → Good out
    → Good res × Within out res × All (λ raw. exists (bytes_eq (trim_space raw)) res ≡ true) types
unfolding collect added Within
collect-Good out [] res e g =
    let same : out ≡ res = cc in
    (subst Good same g, (λ v h. subst (λ o. exists (bytes_eq v) o ≡ true) same h), tt)
collect-Good out (raw ∷ rest) res e g =
    let v = trim_space raw in
    let (valid, run) = passed (matches_event_type v) (collect (added v out) rest) _ res e in
    let (good, within, covers) =
      collect-Good (added v out) rest res run (added-Good v out valid g) in
    let (kept, there) = added-Within v out in
    (good, (λ w h. within w (kept w h)), (within v there, covers))

-- An accepted list of event types comes out trimmed and without repetitions: no two types are equal,
-- each is a letter or digit followed by at most 254 letters, digits, dots, underscores, colons and
-- dashes, and every type that was given is among them once its white space is cut off.
pub event_types-IsNormal :
    (types out : List Bytes) → event_types types ≡ ok out → IsNormal types out
unfolding event_types Good
event_types-IsNormal [] out e = cc
event_types-IsNormal (t ∷ ts) out e =
    let (good, _, covers) = collect-Good [] (t ∷ ts) out e (tt, tt) in
    record { unique = good.0; valid = good.1; complete = covers }
