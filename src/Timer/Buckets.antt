-- ===== src/Timer/Buckets.antt =====
-- The `std::map<std::uint64_t, std::vector<…>>` of src/timer_service.cpp as a list in ascending order,
-- with the calls that the service makes of it.
use zab.Prelude.{
  ℕ, ◌≤◌, ◌<◌, ◌≡◌, refl, ◌==◌, ltb, leb, Bool, true, false, lt→ltb, List, [], ◌∷◌, ◌++◌, Option,
  none, some, if◌then◌else◌, arith, append_assoc, append-nil, ap, sym, ◌∙◌, Bool-cases, inl, inr,
}

-- A handle and the thread to resume it in.
abbrev pub Waiter : Type 0
Waiter = ℕ × ℕ

abbrev pub Map : Type 0
Map = List (ℕ × List Waiter)

unfoldable pub find : ℕ → Map → Option (List Waiter)
find k [] = none
find k ((m, ws) ∷ rest) = if m == k then some ws else find k rest

unfoldable pub emplace : ℕ → List Waiter → Map → Map
emplace k v [] = (k, v) ∷ []
emplace k v ((m, ws) ∷ rest) =
    if ltb k m then (k, v) ∷ (m, ws) ∷ rest else (m, ws) ∷ emplace k v rest

unfoldable pub append_at : ℕ → Waiter → Map → Map
append_at k w [] = []
append_at k w ((m, ws) ∷ rest) =
    if m == k then (m, ws ++ (w ∷ [])) ∷ rest else (m, ws) ∷ append_at k w rest

-- `_it_ == waiting_.begin()` for the iterator of the key `k`.
unfoldable pub begins_with : ℕ → Map → Bool
begins_with k [] = false
begins_with k ((m, ws) ∷ rest) = m == k

-- The loop that resumes and erases from the beginning on while the mark is not above `now`.
unfoldable pub expire : ℕ → Map → List Waiter × Map
expire now [] = ([], [])
expire now ((m, ws) ∷ rest) =
    let later = expire now rest in
    if leb m now then (ws ++ later.0, later.1) else ([], (m, ws) ∷ rest)

-- All marks are above `low`, in strictly ascending order, and below 2^64.
abbrev pub Ascends : ℕ → Map → Type 0
Ascends low [] = Unit
Ascends low ((m, ws) ∷ rest) = (low < m) × Ascends m rest

abbrev pub Bounded : ℕ → Map → Type 0
Bounded high [] = Unit
Bounded high ((m, ws) ∷ rest) = (m < high) × Bounded high rest

-- Who waits, by mark and then by arrival.
abbrev pub flat : Map → List Waiter
flat [] = []
flat ((m, ws) ∷ rest) = ws ++ flat rest

pub Ascends-weaken : (low low' : ℕ) (map : Map) → low' ≤ low → Ascends low map → Ascends low' map
Ascends-weaken low low' [] h a = tt
Ascends-weaken low low' ((m, ws) ∷ rest) h a = (omega arith, a.1)

pub emplace-Ascends :
    (low : ℕ) (k : ℕ) (v : List Waiter) (map : Map)
    → low < k
    → find k map ≡ none
    → Ascends low map
    → Ascends low (emplace k v map)
unfolding find emplace
emplace-Ascends low k v [] h f a = (h, tt)
emplace-Ascends low k v ((m, ws) ∷ rest) h f a = ground (arith, emplace-Ascends m k v rest)

pub append_at-Ascends :
    (low : ℕ) (k : ℕ) (w : Waiter) (map : Map) → Ascends low map → Ascends low (append_at k w map)
unfolding append_at
append_at-Ascends low k w [] a = tt
append_at-Ascends low k w ((m, ws) ∷ rest) a = ground (arith, append_at-Ascends m k w rest)

pub emplace-Bounded :
    (high : ℕ) (k : ℕ) (v : List Waiter) (map : Map)
    → k < high
    → Bounded high map
    → Bounded high (emplace k v map)
unfolding emplace
emplace-Bounded high k v [] h a = (h, tt)
emplace-Bounded high k v ((m, ws) ∷ rest) h a = ground (arith, emplace-Bounded high k v rest)

pub append_at-Bounded :
    (high : ℕ) (k : ℕ) (w : Waiter) (map : Map)
    → Bounded high map
    → Bounded high (append_at k w map)
unfolding append_at
append_at-Bounded high k w [] a = tt
append_at-Bounded high k w ((m, ws) ∷ rest) a = ground (arith, append_at-Bounded high k w rest)

-- Nothing is lost or reordered by an expiry.
pub expire-flat : (now : ℕ) (map : Map) → flat map ≡ (expire now map).0 ++ flat (expire now map).1
unfolding expire
expire-flat now [] = refl
expire-flat now ((m, ws) ∷ rest) = elim (Bool-cases (leb m now)) [
  | inl h ↦ rw h (
      ap (λ l. ws ++ l) (expire-flat now rest)
      ∙ sym (append_assoc ws (expire now rest).0 (flat (expire now rest).1)))
  | inr h ↦ rw h refl
]

pub expire-Ascends :
    (now : ℕ) (map : Map) (low : ℕ) → low ≤ now → Ascends low map → Ascends now (expire now map).1
unfolding expire
expire-Ascends now [] low h a = tt
expire-Ascends now ((m, ws) ∷ rest) low h a = ground (arith, expire-Ascends now rest m)

pub expire-Bounded :
    (now : ℕ) (map : Map) (high : ℕ) → Bounded high map → Bounded high (expire now map).1
unfolding expire
expire-Bounded now [] high a = tt
expire-Bounded now ((m, ws) ∷ rest) high a = ground (arith, expire-Bounded now rest high)

pub find-emplace :
    (j k : ℕ) (v : List Waiter) (map : Map)
    → find k map ≡ none
    → find j (emplace k v map) ≡ (if k == j then some v else find j map)
unfolding find emplace
find-emplace j k v [] n = refl
find-emplace j k v ((m, ws) ∷ rest) n = ground (arith, find-emplace j k v rest)

pub find-append_at :
    (j k : ℕ) (w : Waiter) (map : Map) {ws : List Waiter}
    → find k map ≡ some ws
    → find j (append_at k w map) ≡ (if k == j then some (ws ++ (w ∷ [])) else find j map)
unfolding find append_at
find-append_at j k w [] f = cc
find-append_at j k w ((m, vs) ∷ rest) {ws} f = ground (arith, find-append_at j k w rest {ws = ws})

-- Nothing is due before the first mark.
pub expire-above : (now : ℕ) (map : Map) → Ascends now map → expire now map ≡ ([], map)
unfolding expire
expire-above now [] a = refl
expire-above now ((m, ws) ∷ rest) a = ground arith

pub expire-first :
    (m : ℕ) (ws : List Waiter) (rest : Map)
    → Ascends m rest
    → expire m ((m, ws) ∷ rest) ≡ (ws, rest)
unfolding expire
expire-first m ws rest a = ground (arith, expire-above m rest a, append-nil ws)

-- Those whose mark is not above `now`, wherever they stand in the map.
abbrev pub due : ℕ → Map → List Waiter
due now [] = []
due now ((m, ws) ∷ rest) = let others = due now rest in if ltb now m then others else ws ++ others

due-above : (now low : ℕ) (map : Map) → now ≤ low → Ascends low map → due now map ≡ []
due-above now low [] h a = refl
due-above now low ((m, ws) ∷ rest) h a =
    rw (lt→ltb now m (omega (arith, h, a.0))) (due-above now m rest (omega (arith, h, a.0)) a.1)

pub expire-due : (now low : ℕ) (map : Map) → Ascends low map → (expire now map).0 ≡ due now map
unfolding expire
expire-due now low [] a = refl
expire-due now low ((m, ws) ∷ rest) a = elim (Bool-cases (leb m now)) [
  | inl z ↦
      let early : ltb now m ≡ false = ground (arith, z) in
      rw (z, early) (ap (λ l. ws ++ l) (expire-due now m rest a.1))
  | inr z ↦
      let late : ltb now m ≡ true = ground (arith, z) in
      rw (z, late) (sym (due-above now m rest (ground (arith, z)) a.1))
]
