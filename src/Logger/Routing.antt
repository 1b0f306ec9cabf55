-- ===== src/Logger/Routing.antt =====
-- Which targets a record goes to: the filter and the collecting loop of `Logger::Write_log`.
use logger_cpp.Common.{
  ◌≤◌, ◌<◌, ◌≡◌, refl, ◌↔◌, ◌⊎◌, inl, inr, true, false, List, [], ◌∷◌, arith, Bool-cases, Any, All,
}
use logger_cpp.Common.Sets.{In, IsRising, In-insert_all, insert_all-IsRising, insert_all, nat_order}
use logger_cpp.Kinds.{
  LogKind, kind_technical, kind_action, kind_event, log_kind_count, LogKindSet, test, all, any,
  intersect,
}
use logger_cpp.Kinds.Membership.{any-intersect, test-bit}
use logger_cpp.Records.{LogRecord, level_value}
use logger_cpp.Logger.{Address, DispatchKey, accepts, collect, route}

-- A kind that is in both sets.
abbrev pub SharesKind : LogKindSet → LogKindSet → Type 0
SharesKind s t = (k : LogKind) × (test s k ≡ true) × (test t k ≡ true)

-- A rule wants a record of its level or above whose kinds meet its own; a set of all three kinds meets
-- every set, the empty one too.
pub record Wants (key : DispatchKey) (r : LogRecord) : Type 0 where
  pub severe : level_value key.level ≤ level_value r.level
  pub meets : (key.kinds.bits ≡ 7) ⊎ ((r.kinds.bits ≡ 7) ⊎ SharesKind key.kinds r.kinds)

-- Kinds that a program can name.
abbrev pub IsKnown : DispatchKey → Type 0
IsKnown key = key.kinds.bits < 8

abbrev SharesKnown : LogKindSet → LogKindSet → Type 0
SharesKnown s t =
    ((test s kind_technical ≡ true) × (test t kind_technical ≡ true))
    ⊎ (((test s kind_action ≡ true) × (test t kind_action ≡ true))
        ⊎ ((test s kind_event ≡ true) × (test t kind_event ≡ true)))

shares-any : (s t : LogKindSet) → s.bits < 8 → SharesKnown s t ↔ (any (intersect s t) ≡ true)
shares-any s t h = rw (any-intersect s t h) (ground arith)

test-log_kind_count : (s : LogKindSet) → s.bits < 8 → test s log_kind_count ≡ false
test-log_kind_count s h = rw (test-bit s log_kind_count) (ground arith)

SharesKind-known : (s t : LogKindSet) → s.bits < 8 → SharesKind s t → SharesKnown s t
SharesKind-known s t h (kind_technical, p, q) = inl (p, q)
SharesKind-known s t h (kind_action, p, q) = inr (inl (p, q))
SharesKind-known s t h (kind_event, p, q) = inr (inr (p, q))
SharesKind-known s t h (log_kind_count, p, q) = absurd (ground (arith, test-log_kind_count s h))

SharesKnown-kind : (s t : LogKindSet) → SharesKnown s t → SharesKind s t
SharesKnown-kind s t (inl p) = (kind_technical, p.0, p.1)
SharesKnown-kind s t (inr (inl p)) = (kind_action, p.0, p.1)
SharesKnown-kind s t (inr (inr p)) = (kind_event, p.0, p.1)

accepts-any :
    (key : DispatchKey) (r : LogRecord)
    → (accepts key r ≡ true) ↔ (
        (level_value key.level ≤ level_value r.level)
        × ((key.kinds.bits ≡ 7)
            ⊎ ((r.kinds.bits ≡ 7) ⊎ (any (intersect key.kinds r.kinds) ≡ true))))
unfolding accepts all
accepts-any key r = ground arith

accepts_iff :
    (key : DispatchKey) (r : LogRecord) → IsKnown key → (accepts key r ≡ true) ↔ Wants key r
accepts_iff key r h =
    let (out, back) = accepts-any key r in
    let (known, found) = shares-any key.kinds r.kinds h in
    (
      λ e. record {
        severe = (out e).0;
        meets = elim (out e).1 [
          | inl p ↦ inl p
          | inr m ↦ elim m [
            | inl p ↦ inr (inl p)
            | inr p ↦ inr (inr (SharesKnown-kind key.kinds r.kinds (found p)))
          ]
        ];
      },
      λ w. back (
        w.severe,
        elim w.meets [
          | inl p ↦ inl p
          | inr m ↦ elim m [
            | inl p ↦ inr (inl p)
            | inr p ↦ inr (inr (known (SharesKind-known key.kinds r.kinds h p)))
          ]
        ],
      ),
    )

abbrev Accepting : Address → LogRecord → List DispatchKey → Type 0
Accepting a r = Any (λ key. (accepts key r ≡ true) × In a key.targets)

In-collect :
    (a : Address) (keys : List DispatchKey) (r : LogRecord) (set : List Address)
    → In a (collect keys r set) ↔ (Accepting a r keys ⊎ In a set)
unfolding collect
In-collect a [] r set = (λ h. inr h, elim [ inl h ↦ absurd h | inr h ↦ h ])
In-collect a (key ∷ keys) r set = elim (Bool-cases (accepts key r)) [
  | inl e ↦
      let (out, back) = In-collect a keys r (insert_all key.targets set) in
      let (out', back') = In-insert_all a key.targets set in
      rw e (
        λ h. elim (out h) [
          | inl m ↦ inl (inr m)
          | inr m ↦ elim (out' m) [ inl k ↦ inl (inl (refl, k)) | inr k ↦ inr k ]
        ],
        elim [
          | inl m ↦ elim m [ inl k ↦ back (inr (back' (inl k.1))) | inr k ↦ back (inl k) ]
          | inr m ↦ back (inr (back' (inr m)))
        ],
      )
  | inr e ↦
      let (out, back) = In-collect a keys r set in
      rw e (
        λ h. elim (out h) [ inl m ↦ inl (inr m) | inr m ↦ inr m ],
        elim [
          | inl m ↦ elim m [ inl k ↦ absurd (ground arith) | inr k ↦ back (inl k) ]
          | inr m ↦ back (inr m)
        ],
      )
]

collect-IsRising :
    (keys : List DispatchKey) (r : LogRecord) (set : List Address)
    → IsRising set
    → IsRising (collect keys r set)
unfolding collect
collect-IsRising [] r set h = h
collect-IsRising (key ∷ keys) r set h =
    collect-IsRising keys r _ (elim (Bool-cases (accepts key r)) [
      | inl e ↦ rw e (insert_all-IsRising key.targets set h)
      | inr e ↦ rw e h
    ])

-- The rules of which one has the target want the record.
abbrev pub WantedBy : Address → LogRecord → List DispatchKey → Type 0
WantedBy a r = Any (λ key. Wants key r × In a key.targets)

Wanted-Accepting :
    (a : Address) (r : LogRecord) (keys : List DispatchKey)
    → All IsKnown keys
    → Accepting a r keys ↔ WantedBy a r keys
Wanted-Accepting a r [] h = (λ m. m, λ m. m)
Wanted-Accepting a r (key ∷ keys) (hk, h) =
    let (out, back) = accepts_iff key r hk in
    let (out', back') = Wanted-Accepting a r keys h in
    (
      elim [ inl m ↦ inl (out m.0, m.1) | inr m ↦ inr (out' m) ],
      elim [ inl m ↦ inl (back m.0, m.1) | inr m ↦ inr (back' m) ],
    )

-- For rules whose kinds are among the three known ones and every record: a target is on the route of
-- the record exactly when some rule with that target wants the record, that is, its level is at most
-- the record's, and one of the two has all kinds or a kind is in both. The route is in strictly rising
-- order of addresses, so that each target is on it once.
pub route_lem :
    (keys : List DispatchKey) (r : LogRecord)
    → All IsKnown keys
    → ((a : Address) → In a (route keys r) ↔ WantedBy a r keys) × IsRising (route keys r)
unfolding route
route_lem keys r h = (
  λ a.
      let (out, back) = In-collect a keys r [] in
      let (out', back') = Wanted-Accepting a r keys h in
      (λ m. elim (out m) [ inl k ↦ out' k | inr k ↦ absurd k ], λ m. back (inl (back' m))),
  collect-IsRising keys r [] tt,
)
