-- ===== src/Graph/AtRisk/Invariant.antt =====
-- The invariant of the breadth-first walk: the components seen are reachable from the start, and
-- closed under the edges but for those that are queued.
use mathlib.Core.List.{foldl}
use mathlib.Core.Bool.{false≢true}
use mathlib.Core.Path.{subst}
use mirops.Prelude.{
  ◌≡◌, ◌≢◌, ◌↔◌, ◌⊎◌, inl, inr, refl, sym, ◌∙◌, ap, String, Bool, true, false, List, [], ◌∷◌, ◌++◌,
  In, All, In-append, Distinct, Distinct-concat, ◌==◌, eq_of_==, ==_refl, if◌then◌else◌, Bool-cases,
}
use mirops.Prelude.Maps.{Map, empty, insert, get_or, get_or-insert}
use mirops.Graph.AtRisk.{Walk, offer, first_walk}

unfoldable pub marked : Walk → String → Bool
marked s x = get_or s.seen x false

-- What `offer` does to a component that was not seen.
abbrev pub mark : Walk → String → Walk
mark s d = record { seen = insert d true s.seen; queue = s.queue ++ d ∷ []; out = s.out ++ d ∷ [] }

pub marked-mark :
    (s : Walk) (d x : String) → marked (mark s d) x ≡ (if x == d then true else marked s x)
unfolding marked
marked-mark s d x = get_or-insert d true s.seen x false

marked-mark_cases :
    (s : Walk) (d x : String) → marked (mark s d) x ≡ true → (x ≡ d) ⊎ (marked s x ≡ true)
marked-mark_cases s d x h = go (Bool-cases (x == d))
  where
    go : ((x == d) ≡ true) ⊎ ((x == d) ≡ false) → (x ≡ d) ⊎ (marked s x ≡ true)
    go (inl e) = inl (eq_of_== x d e)
    go (inr e) = inr (sym (marked-mark s d x ∙ rw e) ∙ h)

marked-mark_old : (s : Walk) (d x : String) → marked s x ≡ true → marked (mark s d) x ≡ true
marked-mark_old s d x h = marked-mark s d x ∙ go (x == d)
  where
    go : (b : Bool) → (if b then true else marked s x) ≡ true
    go true = refl
    go false = h

marked-mark_self : (s : Walk) (d : String) → marked (mark s d) d ≡ true
marked-mark_self s d = marked-mark s d d ∙ rw (==_refl d)

pub offer_old : (s : Walk) (d : String) → marked s d ≡ true → offer s d ≡ s
unfolding marked offer
offer_old s d old = rw (old, offer)

pub offer_new : (s : Walk) (d : String) → marked s d ≡ false → offer s d ≡ mark s d
unfolding marked offer
offer_new s d new = rw (new, offer)

In-snoc : (x d : String) (xs : List String) → In x (xs ++ d ∷ []) → In x xs ⊎ (x ≡ d)
In-snoc x d xs i = elim ((In-append x xs (d ∷ [])).0 i) [
  | inl old ↦ inl old
  | inr last ↦ elim last [ inl e ↦ inr e | inr z ↦ elim z [ ] ]
]

In-snoc_old : (x d : String) (xs : List String) → In x xs → In x (xs ++ d ∷ [])
In-snoc_old x d xs i = (In-append x xs (d ∷ [])).1 (inl i)

In-snoc_last : (d : String) (xs : List String) → In d (xs ++ d ∷ [])
In-snoc_last d xs = (In-append d xs (d ∷ [])).1 (inr (inl refl))

module _ (rdeps : Map (List String)) (nid : String) (Reach : String → Type 0) (start : Reach nid)
    (step : (a b : String) → Reach a → In b (get_or rdeps a []) → Reach b) where
  -- The walk while the edges from `u` to the components of `rem` are still to be followed.
  pub record Inv (u : String) (rem : List String) (s : Walk) : Type 0 where
    pub source : marked s nid ≡ true
    pub listed : (x : String) → marked s x ≡ true → (x ≡ nid) ⊎ In x s.out
    pub out_marked : (x : String) → In x s.out → (marked s x ≡ true) × (x ≢ nid)
    pub queued : (x : String) → In x s.queue → marked s x ≡ true
    pub sound : (x : String) → marked s x ≡ true → Reach x
    pub closed :
        (a b : String)
        → marked s a ≡ true
        → In b (get_or rdeps a [])
        → In a s.queue ⊎ ((marked s b ≡ true) ⊎ ((a ≡ u) × In b rem))
    pub distinct : Distinct s.out

  Inv-mark :
      (u d : String) (rem : List String) (s : Walk)
      → Reach u
      → In d (get_or rdeps u [])
      → marked s d ≡ false
      → Inv u (d ∷ rem) s
      → Inv u rem (mark s d)
  Inv-mark u d rem s reach edge new h = record {
    source = marked-mark_old s d nid h.source;
    listed = λ x m. elim (marked-mark_cases s d x m) [
      | inl e ↦ inr (rw e (In-snoc_last d s.out))
      | inr old ↦ elim (h.listed x old) [ inl e ↦ inl e | inr i ↦ inr (In-snoc_old x d s.out i) ]
    ];
    out_marked = λ x i. elim (In-snoc x d s.out i) [
      | inl old ↦ (marked-mark_old s d x (h.out_marked x old).0, (h.out_marked x old).1)
      | inr e ↦ (
        rw e (marked-mark_self s d),
        λ is_start. false≢true (sym new ∙ ap (marked s) (sym e ∙ is_start) ∙ h.source),
      )
    ];
    queued = λ x i. elim (In-snoc x d s.queue i) [
      | inl old ↦ marked-mark_old s d x (h.queued x old)
      | inr e ↦ rw e (marked-mark_self s d)
    ];
    sound = λ x m. elim (marked-mark_cases s d x m) [
      | inl e ↦ rw e (step u d reach edge)
      | inr old ↦ h.sound x old
    ];
    closed = λ a b m i. elim (marked-mark_cases s d a m) [
      | inl e ↦ inl (rw e (In-snoc_last d s.queue))
      | inr old ↦ elim (h.closed a b old i) [
        | inl q ↦ inl (In-snoc_old a d s.queue q)
        | inr other ↦ elim other [
          | inl mb ↦ inr (inl (marked-mark_old s d b mb))
          | inr (au, ib) ↦ elim ib [
            | inl e ↦ inr (inl (rw e (marked-mark_self s d)))
            | inr later ↦ inr (inr (au, later))
          ]
        ]
      ]
    ];
    distinct =
        Distinct-concat s.out d h.distinct (λ i. false≢true (sym new ∙ (h.out_marked d i).0));
  }

  Inv-skip :
      (u d : String) (rem : List String) (s : Walk)
      → marked s d ≡ true
      → Inv u (d ∷ rem) s
      → Inv u rem s
  Inv-skip u d rem s old h = record {
    source = h.source;
    listed = h.listed;
    out_marked = h.out_marked;
    queued = h.queued;
    sound = h.sound;
    closed = λ a b m i. elim (h.closed a b m i) [
      | inl q ↦ inl q
      | inr other ↦ elim other [
        | inl mb ↦ inr (inl mb)
        | inr (au, ib) ↦ elim ib [
          | inl e ↦ inr (inl (rw e old))
          | inr later ↦ inr (inr (au, later))
        ]
      ]
    ];
    distinct = h.distinct;
  }

  pub Inv-offers :
      (u : String) (rem : List String) (s : Walk)
      → Reach u
      → All (λ d. In d (get_or rdeps u [])) rem
      → Inv u rem s
      → Inv u [] (foldl offer s rem)
  Inv-offers u [] s reach edges h = h
  Inv-offers u (d ∷ rem) s reach edges h =
      Inv-offers u rem (offer s d) reach edges.1 (go (Bool-cases (marked s d)))
    where
      go : (marked s d ≡ true) ⊎ (marked s d ≡ false) → Inv u rem (offer s d)
      go (inl old) = rw (offer_old s d old) (Inv-skip u d rem s old h)
      go (inr new) = rw (offer_new s d new) (Inv-mark u d rem s reach edges.0 new h)

  -- The start of a round: `cur` leaves the queue, and its edges are still to be followed.
  pub Inv-pop :
      (u cur : String) (rest : List String) (s : Walk)
      → s.queue ≡ cur ∷ rest
      → Inv u [] s
      → Inv cur (get_or rdeps cur []) (record s { queue = rest })
  Inv-pop u cur rest s e h = record {
    source = unfold marked in h.source;
    listed = λ x m. h.listed x (unfold marked in m);
    out_marked = λ x i. (unfold marked in (h.out_marked x i).0, (h.out_marked x i).1);
    queued = λ x i. unfold marked in h.queued x (rw e (inr i));
    sound = λ x m. h.sound x (unfold marked in m);
    closed = λ a b m i. elim (h.closed a b (unfold marked in m) i) [
      | inl q ↦ popped a b i (rw e at q)
      | inr other ↦ elim other [
        | inl mb ↦ inr (inl (unfold marked in mb))
        | inr (au, z) ↦ elim z [ ]
      ]
    ];
    distinct = h.distinct;
  }
    where
      popped :
          (a b : String)
          → In b (get_or rdeps a [])
          → In a (cur ∷ rest)
          → In a rest
            ⊎ ((marked (record s { queue = rest }) b ≡ true)
                ⊎ ((a ≡ cur) × In b (get_or rdeps cur [])))
      popped a b i (inl same) = inr (inr (same, rw same at i))
      popped a b i (inr later) = inl later

  pub Inv-end :
      (u : String) (s : Walk)
      → ((P : String → Type 0)
          → P nid
          → ((a b : String) → P a → In b (get_or rdeps a []) → P b)
          → (x : String) → Reach x
          → P x)
      → s.queue ≡ []
      → Inv u [] s
      → Distinct s.out × ((x : String) → In x s.out ↔ ((x ≢ nid) × Reach x))
  Inv-end u s least e h = (
    h.distinct,
    λ x. (
      λ i. ((h.out_marked x i).1, h.sound x (h.out_marked x i).0),
      λ (other, r). elim (h.listed x (least (λ y. marked s y ≡ true) h.source follows x r)) [
        | inl same ↦ absurd (other same)
        | inr i ↦ i
      ],
    ),
  )
    where
      follows : (a b : String) → marked s a ≡ true → In b (get_or rdeps a []) → marked s b ≡ true
      follows a b m i = elim (h.closed a b m i) [
        | inl q ↦ elim (subst (In a) e q) [ ]
        | inr other ↦ elim other [ inl mb ↦ mb | inr (au, z) ↦ elim z [ ] ]
      ]

  first_only : (x : String) → marked (first_walk nid) x ≡ true → x ≡ nid
  unfolding marked
  first_only x m = elim (Bool-cases (x == nid)) [
    | inl e ↦ eq_of_== x nid e
    | inr e ↦ absurd (false≢true (sym (get_or-insert nid true empty x false ∙ rw e) ∙ m))
  ]

  pub Inv-first : Inv nid [] (first_walk nid)
  unfolding marked
  Inv-first = record {
    source = get_or-insert nid true empty nid false ∙ rw (==_refl nid);
    listed = λ x m. inl (first_only x m);
    out_marked = λ x i. elim i [ ];
    queued = λ x i. elim i [
      | inl e ↦ rw e (get_or-insert nid true empty nid false ∙ rw (==_refl nid))
      | inr z ↦ elim z [ ]
    ];
    sound = λ x m. rw (first_only x m) start;
    closed = λ a b m i. inl (inl (first_only a m));
    distinct = tt;
  }
