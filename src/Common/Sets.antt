-- ===== src/Common/Sets.antt =====
-- `std::set` as a list in strictly rising order, over an order given as an instance.
use Prim.Native.Nat.{ℕ}
use mathlib.Core.Path.{◌≡◌, refl, ◌∙◌}
use mathlib.Core.Logic.{◌⊎◌, inl, inr, ◌↔◌}
use mathlib.Core.Bool.{Bool, true, false, ◌&&◌, ◌||◌}
use mathlib.Core.List.{List, [], ◌∷◌}
use native.Mathlib.Omega.{arith}
use logger_cpp.Common.Tests.{ltb, ◌==◌, if◌then◌else◌, Bool-cases}
use logger_cpp.Common.Predicates.{All, All-map, Any}
use logger_cpp.Common.Text.{Bytes}

-- The comparison of a set, with what makes it a strict total order.
pub record Order {ℓ} (A : Type ℓ) : Type ℓ where
  pub lt : A → A → Bool
  pub irreflexive : (a : A) → lt a a ≡ false
  pub transitive : (a b c : A) → lt a b ≡ true → lt b c ≡ true → lt a c ≡ true
  pub connected : (a b : A) → lt a b ≡ false → lt b a ≡ false → a ≡ b

abbrev pub In : {A : Type 0} → A → List A → Type 0
In a xs = Any (λ b. a ≡ b) xs

module _ {A : Type 0} ⦃o : Order A⦄ where
  -- `set.insert(a)`.
  unfoldable pub insert : A → List A → List A
  insert a [] = a ∷ []
  insert a (b ∷ bs) =
      let rest = insert a bs in
      if o.lt a b then a ∷ (b ∷ bs) else if o.lt b a then b ∷ rest else b ∷ bs

  unfoldable pub insert_all : List A → List A → List A
  insert_all [] set = set
  insert_all (a ∷ as') set = insert_all as' (insert a set)

  -- In strictly rising order, so without repetition.
  abbrev pub IsRising : List A → Type 0
  IsRising [] = Unit {0}
  IsRising (a ∷ as') = All (λ b. o.lt a b ≡ true) as' × IsRising as'

  pub In-insert : (x a : A) (set : List A) → In x (insert a set) ↔ ((x ≡ a) ⊎ In x set)
  unfolding insert
  In-insert x a [] = (λ h. h, λ h. h)
  In-insert x a (b ∷ bs) =
      let (out, back) = In-insert x a bs in
      elim (Bool-cases (o.lt a b)) [
        | inl e ↦ rw e (λ h. h, λ h. h)
        | inr e ↦ elim (Bool-cases (o.lt b a)) [
          | inl e' ↦
              rw (e, e')
                (
                  elim [
                    | inl p ↦ inr (inl p)
                    | inr m ↦ elim (out m) [ inl p ↦ inl p | inr q ↦ inr (inr q) ]
                  ],
                  elim [
                    | inl p ↦ inr (back (inl p))
                    | inr m ↦ elim m [ inl p ↦ inl p | inr q ↦ inr (back (inr q)) ]
                  ],
                )
          | inr e' ↦
              rw (e, e') (λ h. inr h, elim [ inl p ↦ inl (p ∙ o.connected a b e e') | inr m ↦ m ])
        ]
      ]

  -- All of a set after an insertion.
  All-insert : (P : A → Type 0) (a : A) (set : List A) → P a → All P set → All P (insert a set)
  unfolding insert
  All-insert P a [] pa h = (pa, tt)
  All-insert P a (b ∷ bs) pa (pb, h) = elim (Bool-cases (o.lt a b)) [
    | inl e ↦ rw e (pa, (pb, h))
    | inr e ↦ elim (Bool-cases (o.lt b a)) [
      | inl e' ↦ rw (e, e') (pb, All-insert P a bs pa h)
      | inr e' ↦ rw (e, e') (pb, h)
    ]
  ]

  pub insert-IsRising : (a : A) (set : List A) → IsRising set → IsRising (insert a set)
  unfolding insert
  insert-IsRising a [] h = (tt, tt)
  insert-IsRising a (b ∷ bs) (hb, hs) = elim (Bool-cases (o.lt a b)) [
    | inl e ↦ rw e (
      (e, All-map (λ c. o.lt b c ≡ true) (λ c. o.lt a c ≡ true) bs (λ c. o.transitive a b c e) hb),
      (hb, hs),
    )
    | inr e ↦ elim (Bool-cases (o.lt b a)) [
      | inl e' ↦ rw (e, e') (All-insert (λ c. o.lt b c ≡ true) a bs e' hb, insert-IsRising a bs hs)
      | inr e' ↦ rw (e, e') (hb, hs)
    ]
  ]

  pub In-insert_all : (x : A) (as' set : List A) → In x (insert_all as' set) ↔ (In x as' ⊎ In x set)
  unfolding insert_all
  In-insert_all x [] set = (λ h. inr h, elim [ inl h ↦ absurd h | inr h ↦ h ])
  In-insert_all x (a ∷ as') set =
      let (out, back) = In-insert_all x as' (insert a set) in
      let (out', back') = In-insert x a set in
      (
        λ h. elim (out h) [
          | inl m ↦ inl (inr m)
          | inr m ↦ elim (out' m) [ inl p ↦ inl (inl p) | inr q ↦ inr q ]
        ],
        elim [
          | inl m ↦ elim m [ inl p ↦ back (inr (back' (inl p))) | inr q ↦ back (inl q) ]
          | inr m ↦ back (inr (back' (inr m)))
        ],
      )

  pub insert_all-IsRising : (as' set : List A) → IsRising set → IsRising (insert_all as' set)
  unfolding insert_all
  insert_all-IsRising [] set h = h
  insert_all-IsRising (a ∷ as') set h =
      insert_all-IsRising as' (insert a set) (insert-IsRising a set h)

  pub All-insert_all :
      (P : A → Type 0) (as' set : List A) → All P as' → All P set → All P (insert_all as' set)
  unfolding insert_all
  All-insert_all P [] set h k = k
  All-insert_all P (a ∷ as') set (pa, h) k =
      All-insert_all P as' (insert a set) h (All-insert P a set pa k)

pub ltb-irreflexive : (a : ℕ) → ltb a a ≡ false
ltb-irreflexive a = ground arith

pub ltb-transitive : (a b c : ℕ) → ltb a b ≡ true → ltb b c ≡ true → ltb a c ≡ true
ltb-transitive a b c h k = ground arith

pub ltb-connected : (a b : ℕ) → ltb a b ≡ false → ltb b a ≡ false → a ≡ b
ltb-connected a b h k = ground arith

-- Addresses, in the order of `std::less`.
instance abbrev pub nat_order : Order ℕ
nat_order = record {
  lt = ltb;
  irreflexive = ltb-irreflexive;
  transitive = ltb-transitive;
  connected = ltb-connected;
}

-- `operator<` of two strings: the first different byte decides.
abbrev pub text_ltb : Bytes → Bytes → Bool
text_ltb s [] = false
text_ltb [] (d ∷ t) = true
text_ltb (c ∷ s) (d ∷ t) = ltb c d || c == d && text_ltb s t

pub text_ltb-irreflexive : (s : Bytes) → text_ltb s s ≡ false
text_ltb-irreflexive [] = refl
text_ltb-irreflexive (c ∷ s) = ground (arith, text_ltb-irreflexive s)

pub text_ltb-transitive :
    (s t u : Bytes) → text_ltb s t ≡ true → text_ltb t u ≡ true → text_ltb s u ≡ true
text_ltb-transitive s t [] h k = cc
text_ltb-transitive s [] (e ∷ u) h k = cc
text_ltb-transitive [] (d ∷ t) (e ∷ u) h k = refl
text_ltb-transitive (c ∷ s) (d ∷ t) (e ∷ u) h k = ground (arith, text_ltb-transitive s t u)

pub text_ltb-connected : (s t : Bytes) → text_ltb s t ≡ false → text_ltb t s ≡ false → s ≡ t
text_ltb-connected [] [] h k = refl
text_ltb-connected [] (d ∷ t) h k = cc
text_ltb-connected (c ∷ s) [] h k = cc
text_ltb-connected (c ∷ s) (d ∷ t) h k = ground (arith, text_ltb-connected s t)

instance abbrev pub text_order : Order Bytes
text_order = record {
  lt = text_ltb;
  irreflexive = text_ltb-irreflexive;
  transitive = text_ltb-transitive;
  connected = text_ltb-connected;
}
