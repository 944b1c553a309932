-- ===== src/Gateway/Stream/Cache/Refines.antt =====
-- The cache of published events is a window on the last identifiers (crates/gateway/src/state.rs).
use watt_gateway.Prelude.{
  ℕ, suc, ◌≤◌, ◌<◌, ◌≡◌, refl, sym, ap, ◌∙◌, String, Bool, true, false, not, ◌&&◌, ◌||◌, List, [],
  ◌∷◌, ◌++◌, arith, ltb, str_eq, eq_iff, length, length-append,
}
use watt_gateway.Gateway.Stream.Cache.{
  PublishedEventCache, has, discard, expire, pushed, remember_if, remember,
}

-- The specification: the window keeps the last `capacity` identifiers, the oldest first.
abbrev drop_first : List String → List String
drop_first [] = []
drop_first (oldest ∷ rest) = rest

abbrev pub pushed_window : String → List String → Bool → List String
pushed_window id window true = drop_first (window ++ id ∷ [])
pushed_window id window false = window ++ id ∷ []

abbrev pub window_if : String → List String → Bool → Bool → List String × Bool
window_if id window past true = (window, false)
window_if id window past false = (pushed_window id window past, true)

abbrev pub window_remember : ℕ → String → List String → List String × Bool
window_remember capacity id window =
    window_if id window (ltb capacity (length (window ++ id ∷ []))) (has id window)

abbrev IsDistinct : List String → Type 0
IsDistinct [] = Unit
IsDistinct (x ∷ xs) = (has x xs ≡ false) × IsDistinct xs

-- A cache of a window: the queue is the window, and the set has its identifiers.
abbrev pub Represents : ℕ → PublishedEventCache → List String → Type 0
Represents capacity cache window =
    (cache.order ≡ window)
    × ((id : String) → has id cache.event_ids ≡ has id window)
    × IsDistinct window
    × (length window ≤ capacity)

has-append : (q : String) (xs ys : List String) → has q (xs ++ ys) ≡ (has q xs || has q ys)
has-append q [] ys = refl
has-append q (x ∷ xs) ys = rw (has-append q xs ys) (ground arith)

has-discard :
    (q id : String) (xs : List String) → has q (discard id xs) ≡ (has q xs && not (str_eq id q))
has-discard q id [] = refl
has-discard q id (x ∷ xs) =
    ground (arith, has-discard q id xs, eq_iff x id, eq_iff x q, eq_iff id q)

IsDistinct-append :
    (id : String) (xs : List String)
    → IsDistinct xs
    → has id xs ≡ false
    → IsDistinct (xs ++ id ∷ [])
IsDistinct-append id [] h fresh = (refl, tt)
IsDistinct-append id (x ∷ xs) (first, rest) fresh = (
  rw (has-append x xs (id ∷ [])) (ground (arith, first, fresh, eq_iff x id, eq_iff id x)),
  IsDistinct-append id xs rest (ground (arith, fresh)),
)

-- In a window whose first is not among the rest, the rest is the window without it.
has-rest :
    (q x : String) (xs : List String)
    → has x xs ≡ false
    → has q xs ≡ (has q (x ∷ xs) && not (str_eq x q))
has-rest q x xs fresh = by_test (str_eq x q) (has q xs) (λ e. rw (sym ((eq_iff x q).0 e)) fresh)
  where
    by_test :
        (same there : Bool) → (same ≡ true → there ≡ false) → there ≡ ((same || there) && not same)
    by_test true there h = h refl
    by_test false true h = refl
    by_test false false h = refl

module _ (capacity : ℕ) where
  -- Past the capacity the oldest leaves both the queue and the set.
  expired :
      (ids window : List String)
      → ((q : String) → has q ids ≡ has q window)
      → IsDistinct window
      → length window ≤ suc capacity
      → capacity < length window
      → Represents capacity (expire ids window) (drop_first window)
  expired ids [] same distinct below above = absurd (omega (arith, above))
  expired ids (oldest ∷ rest) same (fresh, distinct) below above = (
    refl,
    λ q.
        has-discard q oldest ids
        ∙ ap (λ there. there && not (str_eq oldest q)) (same q)
        ∙ sym (has-rest q oldest rest fresh),
    distinct,
    omega (arith, below),
  )

  grown :
      (id : String) (ids window : List String)
      → ((q : String) → has q ids ≡ has q window)
      → (q : String) → has q (id ∷ ids) ≡ has q (window ++ id ∷ [])
  grown id ids window same q =
      rw (same q, has-append q window (id ∷ [])) (swap (str_eq id q) (has q window))
    where
      swap : (a b : Bool) → (a || b) ≡ (b || (a || false))
      swap true true = refl
      swap true false = refl
      swap false true = refl
      swap false false = refl

  pushed_represents :
      (id : String) (ids window : List String) (past : Bool)
      → ((q : String) → has q ids ≡ has q window)
      → IsDistinct window
      → length window ≤ capacity
      → has id window ≡ false
      → ltb capacity (length (window ++ id ∷ [])) ≡ past
      → Represents capacity
          (pushed id (record { event_ids = ids; order = window }) past)
          (pushed_window id window past)
  pushed_represents id ids window true same distinct below fresh is =
      expired (id ∷ ids) (window ++ id ∷ []) (grown id ids window same)
        (IsDistinct-append id window distinct fresh)
        (omega (arith, length-append window (id ∷ []), below)) (ground (arith, is))
  pushed_represents id ids window false same distinct below fresh is = (
    refl,
    grown id ids window same,
    IsDistinct-append id window distinct fresh,
    ground (arith, is),
  )

  answers :
      (id : String) (ids window : List String) (past known : Bool)
      → Represents capacity (record { event_ids = ids; order = window }) window
      → has id window ≡ known
      → ltb capacity (length (window ++ id ∷ [])) ≡ past
      → ((remember_if id (record { event_ids = ids; order = window }) past known).1
          ≡ (window_if id window past known).1)
        × Represents capacity
            (remember_if id (record { event_ids = ids; order = window }) past known).0
            (window_if id window past known).0
  answers id ids window past true h is past_is = (refl, h)
  answers id ids window past false (order, same, distinct, below) fresh past_is =
      (refl, pushed_represents id ids window past same distinct below fresh past_is)

  -- The cache implements the window of the last identifiers: it answers as the window does, and
  -- afterwards its queue is the window, its set has exactly the window's identifiers, none twice, and
  -- there are at most `capacity`.
  pub remember_refines :
      (id : String) (ids window : List String)
      → Represents capacity (record { event_ids = ids; order = window }) window
      → ((remember capacity id (record { event_ids = ids; order = window })).1
          ≡ (window_remember capacity id window).1)
        × Represents capacity
            (remember capacity id (record { event_ids = ids; order = window })).0
            (window_remember capacity id window).0
  unfolding remember
  remember_refines id ids window (order, same, distinct, below) =
      rw (same id) (answers id ids window _ _ (order, same, distinct, below) refl refl)
