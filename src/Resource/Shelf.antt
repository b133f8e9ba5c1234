-- ===== src/Resource/Shelf.antt =====
-- Live resources (`r_open_hashed` and the first half of `r_close` in resource.c): a table by path,
-- under the lock of the table, so that each call is one step. What a demuxer makes of a path is a
-- parameter. A count is a `gint`; it stays below the number of clients.
use Prim.Native.String.{String}
use text.Mathlib.Text.{◌==◌ as ◌=s=◌}
use text.Mathlib.TextEquality.{eq_iff}
use text.Mathlib.TextPositions.{eq_refl}
use is_rtsp_server.Base.{
  ℕ, ◌+◌, ◌-◌, ◌≡◌, refl, arith, Bool, true, false, Option, none, some, List, [], ◌∷◌, ltb, ◌==◌,
  if◌then◌else◌, ◌++◌, if-cases, match-cases, subst, sym,
}

-- A live `Resource`: how many clients use it, whether it has a fill pool, and how often its queues
-- were reset.
pub record Live : Type 0 where
  pub count : ℕ
  pub filling : Bool
  pub resets : ℕ

-- `shared_resources`
abbrev pub Shelf : Type 0
Shelf = List (String × Live)

unfoldable pub look_up : String → Shelf → Option Live
look_up k [] = none
look_up k ((j, r) ∷ m) = if j =s= k then some r else look_up k m

unfoldable pub store : String → Live → Shelf → Shelf
store k r [] = (k, r) ∷ []
store k r ((j, s) ∷ m) = if j =s= k then (k, r) ∷ m else (j, s) ∷ store k r m

-- One more client: the count, and `r_resume` if the resource has no fill pool.
abbrev pub joined : Live → Live
joined r = record r { count = r.count + 1; filling = true }

-- `r_open_hashed`; `opens` is whether `r_open_direct` opens the path.
unfoldable pub open_hashed : (String → Bool) → String → Shelf → Shelf × Bool
unfolding look_up store
open_hashed opens k m = elim (look_up k m) [
  | some r ↦ (store k (joined r) m, true)
  | none ↦
      if opens k
      then (store k (joined (record { count = 0; filling = false; resets = 0 })) m, true)
      else (m, false)
]

-- One client less: the last one stops the fill pool and resets the queues.
abbrev pub left : Live → Live
left r =
    if r.count == 1
    then record { count = 0; filling = false; resets = r.resets + 1 }
    else record r { count = r.count - 1 }

-- `r_close` on the resource that was opened for a path.
unfoldable pub close_live : String → Shelf → Shelf
unfolding look_up store
close_live k m = elim (look_up k m) [ none ↦ m | some r ↦ store k (left r) m ]

look_up-store :
    (k j : String) (r : Live) (m : Shelf)
    → look_up j (store k r m) ≡ (if k =s= j then some r else look_up j m)
unfolding look_up store
look_up-store k j r [] = refl
look_up-store k j r ((i, s) ∷ m) =
    ground (arith, eq_iff k j, eq_iff i k, eq_iff i j, look_up-store k j r m)

-- How often a path stands in a list: the clients that use its resource.
pub users : String → List String → ℕ
users k [] = 0
users k (j ∷ ks) = (if j =s= k then 1 else 0) + users k ks

users-append : (k : String) (xs ys : List String) → users k (xs ++ ys) ≡ users k xs + users k ys
unfolding users
users-append k [] ys = omega arith
users-append k (x ∷ xs) ys = omega (arith, users-append k xs ys)

-- A resource in the table counts its users, and is filled if and only if there are any.
abbrev pub Counts : Option Live → ℕ → Type 0
Counts none n = n ≡ 0
Counts (some r) n = (r.count ≡ n) × (r.filling ≡ ltb 0 n)

-- The table, and the paths that clients have open.
abbrev pub IsCounted : Shelf → List String → Type 0
IsCounted m ks = (k : String) → Counts (look_up k m) (users k ks)

pub empty-IsCounted : IsCounted [] []
unfolding look_up users
empty-IsCounted k = refl

store-IsCounted :
    (k : String) (r : Live) (m : Shelf) (ks ks' : List String)
    → IsCounted m ks
    → Counts (some r) (users k ks')
    → ((j : String) → (k =s= j) ≡ false → users j ks' ≡ users j ks)
    → IsCounted (store k r m) ks'
store-IsCounted k r m ks ks' h c e j =
    subst (λ o. Counts o (users j ks')) (sym (look_up-store k j r m))
      (if-cases (λ o. Counts o (users j ks')) (k =s= j) _ _
        (λ f. subst (λ x. Counts (some r) (users x ks')) ((eq_iff k j).0 f) c)
        (λ f. subst (λ n. Counts (look_up j m) n) (sym (e j f)) (h j)))

users_self : (k : String) (ks : List String) → users k (k ∷ ks) ≡ users k ks + 1
unfolding users
users_self k ks = let e : (k =s= k) ≡ true = eq_refl k in ground (arith, e)

users_other : (k j : String) (ks : List String) → (k =s= j) ≡ false → users j (k ∷ ks) ≡ users j ks
unfolding users
users_other k j ks f = ground (arith, f)

-- Opening a path, whether its resource is in the table or not, and whether it can be opened or not,
-- keeps every count.
pub open_hashed-IsCounted :
    (opens : String → Bool) (k : String) (m : Shelf) (ks : List String)
    → IsCounted m ks
    → let r = open_hashed opens k m in IsCounted (r.0) (if r.1 then k ∷ ks else ks)
unfolding open_hashed
open_hashed-IsCounted opens k m ks h =
    let P : Shelf × Bool → Type 0 = λ r. IsCounted (r.0) (if r.1 then k ∷ ks else ks) in
    let n = users_self k ks in
    match-cases P (look_up k m) _ _
      (λ e.
        if-cases P (opens k) _ _
          (λ f.
            let z : users k ks ≡ 0 = subst (λ o. Counts o (users k ks)) e (h k) in
            store-IsCounted k _ m ks (k ∷ ks) h (ground (arith, n, z))
              (λ j g. users_other k j ks g))
          (λ f. h))
      (λ r e.
        let c : Counts (some r) (users k ks) = subst (λ o. Counts o (users k ks)) e (h k) in
        store-IsCounted k (joined r) m ks (k ∷ ks) h (ground (arith, n, c.0))
          (λ j g. users_other k j ks g))

users_middle :
    (j k : String) (xs ys : List String) → users j (xs ++ k ∷ ys) ≡ users j xs + users j (k ∷ ys)
users_middle j k xs ys = users-append j xs (k ∷ ys)

left-Counts : (r : Live) (n m : ℕ) → Counts (some r) n → n ≡ m + 1 → Counts (some (left r)) m
left-Counts r n m c e = ground (arith, c.0, c.1, e)

-- Closing one of the resources that clients have open keeps every count: the fill pool is stopped
-- exactly when no other client has it open.
pub close_live-IsCounted :
    (k : String) (m : Shelf) (xs ys : List String)
    → IsCounted m (xs ++ k ∷ ys)
    → IsCounted (close_live k m) (xs ++ ys)
unfolding close_live
close_live-IsCounted k m xs ys h =
    let n = users_middle k k xs ys in
    let s = users_self k ys in
    match-cases (λ x. IsCounted x (xs ++ ys)) (look_up k m) _ _
      (λ e. absurd (
        let z : users k (xs ++ k ∷ ys) ≡ 0 =
          subst (λ o. Counts o (users k (xs ++ k ∷ ys))) e (h k) in
        omega (arith, n, s, z)))
      (λ r e.
        let c : Counts (some r) (users k (xs ++ k ∷ ys)) =
          subst (λ o. Counts o (users k (xs ++ k ∷ ys))) e (h k) in
        store-IsCounted k (left r) m (xs ++ k ∷ ys) (xs ++ ys) h
          (left-Counts r _ _ c (omega (arith, n, s, users-append k xs ys)))
          (λ j g.
            sym
              (omega (arith, users_middle j k xs ys, users_other k j ys g, users-append j xs ys))))
