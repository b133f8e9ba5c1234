-- ===== src/Resource/Opening.antt =====
-- `r_open` of resource.c with `r_open_direct`, `r_open_hashed` and `r_free`: who frees the text of the
-- path (`mrl`), which each call makes anew.
use Prim.Native.String.{String}
use text.Mathlib.Text.{◌==◌ as ◌=s=◌}
use is_rtsp_server.Base.{
  ℕ, ◌+◌, ◌≡◌, ◌⊎◌, inl, inr, suc, refl, arith, Bool, true, false, Option, none, some, [], ◌∷◌,
  ◌&&◌, ◌||◌, not, if◌then◌else◌, length, Outcome, ok, fail, dangling, ◌>>=◌, subst,
}
use is_rtsp_server.Resource.Shelf.{Live, Shelf, look_up, store, joined, open_hashed}

-- `MediaSource`
pub data MediaSource : Type 0 where
  stored live : MediaSource

-- What the system and the demuxers answer for a path: `access`, `r_find_demuxer`, `stat`, and
-- whether the demuxer's `init` succeeds.
pub record File : Type 0 where
  pub readable : Bool
  pub demuxer : Option MediaSource
  pub found : Bool
  pub fifo : Bool
  pub starts : Bool

-- The memory of the path.
pub data Mrl : Type 0 where
  held freed : Mrl

-- `g_free(mrl)`; to free it again is an access to freed memory.
unfoldable pub free_mrl : Mrl → Outcome Mrl
free_mrl held = ok freed
free_mrl freed = fail dangling

-- `r_free`, as far as the path of the resource goes.
unfoldable pub r_free : Mrl → Outcome Mrl
r_free s = free_mrl s

-- `r_open_direct`: what is left of the path, and whether there is a resource, which then owns the
-- path. When `init` fails, `r_free` frees it with the resource.
unfoldable pub open_direct : File → Mrl → Outcome (Mrl × Bool)
open_direct f s =
    if not f.found
    then ok (s, false)
    else if f.fifo
    then ok (s, false)
    else if not f.starts
    then (r_free s >>= λ t. ok (t, false))
    else ok (s, true)

-- What `r_open` leaves: the path, the table, and whether there is a resource.
pub record Opened : Type 0 where
  pub mrl : Mrl
  pub shelf : Shelf
  pub resource : Bool

-- A resource that was just made.
abbrev pub new_live : Live
new_live = record { count = 0; filling = false; resets = 0 }

-- `r_open_hashed`, after the table was searched.
unfoldable pub open_found : File → String → Mrl → Shelf → Option Live → Outcome Opened
unfolding store
open_found f k s m (some r) =
    free_mrl s >>= λ t. ok (record { mrl = t; shelf = store k (joined r) m; resource = true })
open_found f k s m none = open_direct f s >>= λ d.
    if d.1
    then ok (record { mrl = d.0; shelf = store k (joined new_live) m; resource = true })
    else (free_mrl (d.0) >>= λ t. ok (record { mrl = t; shelf = m; resource = false }))

-- `r_open_hashed`
unfoldable pub open_shared : File → String → Mrl → Shelf → Outcome Opened
open_shared f k s m = open_found f k s m (look_up k m)

-- What `r_open` does at `error`.
unfoldable pub refuse : Shelf → Outcome Opened
refuse m = free_mrl held >>= λ t. ok (record { mrl = t; shelf = m; resource = false })

-- `r_open`
unfoldable pub r_open : File → String → Shelf → Outcome Opened
r_open f k m = if not f.readable then refuse m else elim f.demuxer [
  | none ↦ refuse m
  | some live ↦ open_shared f k held m
  | some stored ↦ open_direct f held >>= λ d. ok (record { mrl = d.0; shelf = m; resource = d.1 })
]

-- A live resource that is not in the table, whose `init` fails; `l` is what is in the table.
abbrev pub is_broken : File → Option Live → Bool
is_broken f l =
    f.readable
    && (elim f.demuxer [ none ↦ false | some live ↦ true | some stored ↦ false ])
    && (elim l [ none ↦ true | some r ↦ false ])
    && f.found
    && not f.fifo
    && not f.starts

-- A stored resource that is not a file.
abbrev pub is_wasted : File → Bool
is_wasted f =
    f.readable
    && (elim f.demuxer [ none ↦ false | some live ↦ false | some stored ↦ true ])
    && (if f.found then f.fifo else true)

abbrev pub is_live : File → Bool
is_live f = elim f.demuxer [ none ↦ false | some live ↦ true | some stored ↦ false ]

-- How many texts are left allocated by a call.
abbrev pub kept : Mrl → ℕ
kept held = 1
kept freed = 0

abbrev pub one_if : Bool → ℕ
one_if b = if b then 1 else 0

pub length-store :
    (k : String) (r : Live) (m : Shelf)
    → length (store k r m) ≡ length m + (elim (look_up k m) [ none ↦ 1 | some s ↦ 0 ])
unfolding look_up store
length-store k r [] = refl
length-store k r ((j, s) ∷ m) = of (length-store k r m) (j =s= k)
  where
    of :
        length (store k r m) ≡ length m + (elim (look_up k m) [ none ↦ 1 | some t ↦ 0 ])
        → (b : Bool)
        → length (let x : Shelf = if b then (k, r) ∷ m else (j, s) ∷ store k r m in x)
          ≡ suc (length m) + (elim (let x : Option Live = if b then some s else look_up k m in x) [
            | none ↦ 1
            | some t ↦ 0
          ])
    of e true = omega arith
    of e false = omega (arith, e)

-- A path of which a client gets a resource: a live one that is in the table, or one that starts.
abbrev pub is_opened : File → Option Live → Bool
is_opened f l = f.readable && (elim f.demuxer [
  | none ↦ false
  | some live ↦ (elim l [ none ↦ false | some r ↦ true ]) || (f.found && not f.fifo && f.starts)
  | some stored ↦ f.found && not f.fifo && f.starts
])

-- How a call of `r_open` ends.
abbrev pub Ends : File → String → Shelf → Option Live → Outcome Opened → Type 0
Ends f k m l (fail e) = (is_broken f l ≡ true) × (e ≡ dangling)
Ends f k m l (ok o) =
    (is_broken f l ≡ false)
    × (o.resource ≡ is_opened f l)
    × (kept o.mrl + length m
        ≡ length o.shelf + one_if (o.resource && not (is_live f)) + one_if (is_wasted f))
    × (((o.shelf ≡ m) × (o.resource && is_live f ≡ false))
        ⊎ ((open_hashed (λ _. true) k m ≡ (o.shelf, true)) × (o.resource && is_live f ≡ true)))

abbrev file : Bool → Option MediaSource → Bool → Bool → Bool → File
file a d b c e = record { readable = a; demuxer = d; found = b; fifo = c; starts = e }

found-Ends :
    (k : String) (m : Shelf) (b c e : Bool) (l : Option Live)
    → look_up k m ≡ l
    → Ends (file true (some live) b c e) k m l (open_found (file true (some live) b c e) k held m l)
unfolding open_found open_direct r_free free_mrl open_hashed
found-Ends k m b c e (some r) h =
    let n =
      subst (λ o. length (store k (joined r) m) ≡ length m + (elim o [ none ↦ 1 | some s ↦ 0 ])) h
        (length-store k (joined r) m) in
    (refl, refl, omega (arith, n), inr (rw (open_hashed, h) refl, refl))
found-Ends k m true true e none h = (refl, refl, omega arith, inl (refl, refl))
found-Ends k m true false true none h =
    let n =
      subst
        (λ o. length (store k (joined new_live) m) ≡ length m + (elim o [ none ↦ 1 | some s ↦ 0 ]))
        h (length-store k (joined new_live) m) in
    (refl, refl, omega (arith, n), inr (rw (open_hashed, h) refl, refl))
found-Ends k m true false false none h = (refl, refl)
found-Ends k m false c e none h = (refl, refl, omega arith, inl (refl, refl))

-- A call of `r_open` fails exactly for a live path that is not in the table and does not start, as it
-- frees the path twice. If not, a client gets a resource exactly for a path that is in the table or
-- starts; the path that the call made is freed, unless a new entry of the table or a new stored
-- resource owns it, or it was a stored one that is not a file, when it is lost; and the table is left
-- as it was, or is that of `open_hashed`, whose client gets a live resource.
pub r_open-Ends : (f : File) (k : String) (m : Shelf) → Ends f k m (look_up k m) (r_open f k m)
unfolding r_open open_shared refuse open_direct r_free free_mrl
r_open-Ends f k m = of f.readable f.demuxer f.found f.fifo f.starts
  where
    of :
        (a : Bool) (d : Option MediaSource) (b c e : Bool)
        → Ends (file a d b c e) k m (look_up k m) (r_open (file a d b c e) k m)
    of false d b c e = (refl, refl, omega arith, inl (refl, refl))
    of true none b c e = (refl, refl, omega arith, inl (refl, refl))
    of true (some live) b c e = found-Ends k m b c e (look_up k m) refl
    of true (some stored) true true e = (refl, refl, omega arith, inl (refl, refl))
    of true (some stored) true false true = (refl, refl, omega arith, inl (refl, refl))
    of true (some stored) true false false = (refl, refl, omega arith, inl (refl, refl))
    of true (some stored) false c e = (refl, refl, omega arith, inl (refl, refl))
