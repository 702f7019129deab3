-- ===== src/GrpcClient/Pool.antt =====
-- The round robin of ConnectionPool.
use native.Mathlib.Nat.{mod-eq_of_lt, mul-add-mod_self_right, div-add-mod', suc-mul}
use mathlib.Core.List.{append_assoc, append-nil, map-append}
use advanced_golang_tutorial.Prelude.{
  ℕ, zero, suc, ◌+◌, ◌*◌, ◌%◌, ◌<◌, ◌≡◌, refl, sym, ap, ◌∙◌, false, List, [], ◌∷◌, ◌++◌, map,
  Option, none, some, arith, if◌then◌else◌, ◌==◌, length, length-append, ◌/◌, get_elem?, add_i64,
  is_negative, negate_i64, two_63,
}

-- The counter is an int64 pattern.
pub record ConnectionPool (C : Type 0) : Type 0 where
  pub clients : List C
  pub current : ℕ

-- No client, one, or the panic of an index below zero.
pub data Picked (C : Type 0) : Type 0 where
  no_client : Picked C
  picked : C → Picked C
  out_of_range : Picked C

-- The remainder of Go has the sign of the dividend.
abbrev index_of : ℕ → ℕ → Option ℕ
index_of next n =
    if is_negative next then if negate_i64 next % n == 0 then some 0 else none else some (next % n)

index_of-place :
    (next n q i : ℕ) → next ≡ q * n + i → i < n → next < two_63 → index_of next n ≡ some i
index_of-place next n q i e h s =
    let place : next % n ≡ i = ap (λ m. m % n) e ∙ mul-add-mod_self_right q n i ∙ mod-eq_of_lt h in
    ground (arith, place)

module _ {C : Type 0} where
  abbrev client_at : List C → Option ℕ → Picked C
  client_at clients none = out_of_range
  client_at clients (some i) = elim (get_elem? clients i) [
    | none ↦ out_of_range
    | some c ↦ picked c
  ]

  unfoldable pub get_client : ConnectionPool C → Picked C × ConnectionPool C
  get_client p =
      let next = add_i64 p.current 1 in
      if length p.clients == 0
      then (no_client, p)
      else (client_at p.clients (index_of next (length p.clients)), record p { current = next })

  -- So many calls, first to last.
  unfoldable pub get_clients : ℕ → ConnectionPool C → List (Picked C)
  get_clients zero p = []
  get_clients (suc k) p = let (c, p') = get_client p in c ∷ get_clients k p'

  get_elem?-middle :
      (b : List C) (x : C) (rest : List C) → get_elem? (b ++ x ∷ rest) (length b) ≡ some x
  get_elem?-middle [] x rest = refl
  get_elem?-middle (y ∷ b) x rest = get_elem?-middle b x rest

  length-middle : (b : List C) (x : C) (rest : List C) → length b < length (b ++ x ∷ rest)
  length-middle [] x rest = omega arith
  length-middle (y ∷ b) x rest = omega (arith, length-middle b x rest)

  abbrev pool : List C → ℕ → ConnectionPool C
  pool clients current = record { clients = clients; current = current }

  get_client-next :
      (clients b : List C) (x : C) (rest : List C) (q c : ℕ)
      → clients ≡ b ++ x ∷ rest
      → c + 1 ≡ q * length clients + length b
      → c + 1 < two_63
      → get_client (pool clients c) ≡ (picked x, pool clients (c + 1))
  unfolding get_client
  get_client-next clients b x rest q c e place small =
      let next : add_i64 c 1 ≡ c + 1 = omega arith in
      let inside : length b < length clients = rw e (length-middle b x rest) in
      let some_left : (length clients == 0) ≡ false = ground (arith, inside) in
      let index : index_of (c + 1) (length clients) ≡ some (length b) =
        index_of-place (c + 1) (length clients) q (length b) place inside small in
      let found : get_elem? clients (length b) ≡ some x = rw e (get_elem?-middle b x rest) in
      rw (next, get_client) (rw (some_left, index, found) refl)

  get_clients-middle :
      (clients b mid a : List C) (q c n k last : ℕ)
      → clients ≡ b ++ (mid ++ a)
      → c + 1 ≡ q * length clients + length b
      → c + length mid < two_63
      → n ≡ length mid + k
      → last ≡ c + length mid
      → get_clients n (pool clients c) ≡ map picked mid ++ get_clients k (pool clients last)
  unfolding get_clients
  get_clients-middle clients b [] a q c n k last e place small count end =
      let same : n ≡ k = omega (arith, count) in
      let stays : last ≡ c = omega (arith, end) in rw (same, stays) refl
  get_clients-middle clients b (x ∷ mid) a q c n k last e place small count end =
      let more : n ≡ suc (length mid + k) = omega (arith, count) in
      let longer : length (b ++ x ∷ []) ≡ length b + 1 = omega (arith, length-append b (x ∷ [])) in
      rw more (
        rw (get_client-next clients b x (mid ++ a) q c e place (omega (arith, small))) (
          ap (λ l. picked x ∷ l)
            (get_clients-middle clients (b ++ x ∷ []) mid a q (c + 1) (length mid + k) k last
              (e ∙ sym (append_assoc b (x ∷ []) (mid ++ a))) (omega (arith, place, longer))
              (omega (arith, small)) refl (omega (arith, end)))))

  -- As many calls in a row as the pool has clients pick every client once, in the order of the pool
  -- from the next place on and around its end, as long as the counter stays below 2 ^ 63.
  pub round_robin :
      (before rest : List C) (c : ℕ)
      → (c + 1) % length (before ++ rest) ≡ length before
      → c + length (before ++ rest) < two_63
      → get_clients (length (before ++ rest)) (record { clients = before ++ rest; current = c })
        ≡ map picked (rest ++ before)
  unfolding get_clients
  round_robin before rest c place small =
      let n = length (before ++ rest) in
      let q = (c + 1) / n in
      let total : n ≡ length before + length rest = length-append before rest in
      let whole : c + 1 ≡ q * n + length before =
        sym (div-add-mod' (c + 1) n) ∙ ap (λ m. q * n + m) place in
      let around : c + length rest + 1 ≡ suc q * n + 0 = omega (arith, whole, total, suc-mul q n) in
      get_clients-middle (before ++ rest) before rest [] q c n (length before) (c + length rest)
        (ap (λ l. before ++ l) (sym (append-nil rest))) whole (omega (arith, small, total))
        (omega (arith, total)) refl
      ∙ ap (λ l. map picked rest ++ l)
          (get_clients-middle (before ++ rest) [] before rest (suc q) (c + length rest)
              (length before) 0 (c + length rest + length before) refl around
              (omega (arith, small, total)) (omega arith) refl
            ∙ append-nil (map picked before))
      ∙ sym (map-append picked rest before)
