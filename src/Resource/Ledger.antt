-- ===== src/Resource/Ledger.antt =====
-- The calls of `r_open` and `r_close` (resource.c) one after the other, with the memory of the paths.
-- A demuxer's `init` may answer anything at each call.
use Prim.Native.String.{String}
use is_rtsp_server.Base.{
  ℕ, ◌+◌, ◌-◌, ◌≡◌, refl, arith, true, none, some, List, [], ◌∷◌, ◌++◌, ◌&&◌, not, if◌then◌else◌,
  match-cases, length, Outcome, ok, fail, ◌>>=◌, subst, sym, ap, inl, inr, ◌∙◌,
}
use is_rtsp_server.Resource.Shelf.{
  Live, Shelf, store, look_up, left, close_live, IsCounted, empty-IsCounted, open_hashed-IsCounted,
  close_live-IsCounted,
}
use is_rtsp_server.Resource.Opening.{
  File, held, Opened, r_open, r_free, free_mrl, is_live, is_wasted, kept, one_if, length-store,
  Ends, r_open-Ends,
}

-- The table; the paths of the live resources that clients have open, and how many stored resources
-- they have; how many paths are allocated, and how many of them are lost.
pub record World : Type 0 where
  pub shelf : Shelf
  pub live_paths : List String
  pub playing : ℕ
  pub texts : ℕ
  pub lost : ℕ

unfoldable pub open_path : File → String → World → Outcome World
open_path f k w = r_open f k w.shelf >>= λ o. ok (record {
  shelf = o.shelf;
  live_paths = if o.resource && is_live f then k ∷ w.live_paths else w.live_paths;
  playing = w.playing + one_if (o.resource && not (is_live f));
  texts = w.texts + kept o.mrl;
  lost = w.lost + one_if (is_wasted f);
})

-- `r_close` of a stored resource, which owns its path.
unfoldable pub close_stored : World → Outcome World
close_stored w =
    r_free held >>= λ s. ok (record w { playing = w.playing - 1; texts = w.texts - 1 + kept s })

-- One call that returns: a client opens a path, or closes a resource that it has open.
pub data Step : World → World → Type 0 where
  opened : {w w' : World} (f : File) (k : String) → open_path f k w ≡ ok w' → Step w w'
  closed_live :
      {w : World} {ps : List String} (xs : List String) (k : String) (ys : List String)
      → w.live_paths ≡ xs ++ k ∷ ys
      → ps ≡ xs ++ ys
      → Step w (record w { shelf = close_live k w.shelf; live_paths = ps })
  closed_stored : {w w' : World} (n : ℕ) → w.playing ≡ n + 1 → close_stored w ≡ ok w' → Step w w'

abbrev pub empty_world : World
empty_world = record { shelf = []; live_paths = []; playing = 0; texts = 0; lost = 0 }

pub data Reach : World → Type 0 where
  start : Reach empty_world
  later : {w w' : World} → Reach w → Step w w' → Reach w'

-- Each path that is allocated is in the table, owned by a stored resource, or lost.
abbrev pub Ledger : World → Type 0
Ledger w = (w.texts ≡ length w.shelf + w.playing + w.lost) × IsCounted w.shelf w.live_paths

length-close_live : (k : String) (m : Shelf) → length (close_live k m) ≡ length m
unfolding close_live
length-close_live k m =
    match-cases (λ x. length {A = String × Live} x ≡ length {A = String × Live} m) (look_up k m) m
      (λ r. store k (left r) m) (λ e. refl)
      (λ r e.
        let n = length-store k (left r) m in
        let c =
          subst (λ o. length m + (elim o [ none ↦ 1 | some s ↦ 0 ]) ≡ length m) (sym e)
            (omega arith) in
        n ∙ c)

abbrev Good : Outcome World → Type 0
Good (ok w) = Ledger w
Good (fail e) = Unit

counted :
    (f : File) (k : String) (m : Shelf) (ps : List String) (o : Opened)
    → IsCounted m ps
    → Ends f k m (look_up k m) (ok o)
    → IsCounted o.shelf (if o.resource && is_live f then k ∷ ps else ps)
counted f k m ps o c (a, b, n, inl (e, g)) = rw (e, g) c
counted f k m ps o c (a, b, n, inr (e, g)) = rw g (
    subst (λ r. IsCounted (r.0) (if r.1 then k ∷ ps else ps)) e
      (open_hashed-IsCounted (λ _. true) k m ps c))

open_path-Good : (f : File) (k : String) (w : World) → Ledger w → Good (open_path f k w)
unfolding open_path
open_path-Good f k w (n, c) = of (r_open f k w.shelf) (r_open-Ends f k w.shelf)
  where
    of :
        (x : Outcome Opened)
        → Ends f k w.shelf (look_up k w.shelf) x
        → Good (
            x >>= λ o. ok (record {
              shelf = o.shelf;
              live_paths = if o.resource && is_live f then k ∷ w.live_paths else w.live_paths;
              playing = w.playing + one_if (o.resource && not (is_live f));
              texts = w.texts + kept o.mrl;
              lost = w.lost + one_if (is_wasted f);
            }))
    of (fail e) h = tt
    of (ok o) h =
        let (a, b, l, d) = h in (omega (arith, n, l), counted f k w.shelf w.live_paths o c h)

close_stored-Good : (w : World) (n : ℕ) → w.playing ≡ n + 1 → Ledger w → Good (close_stored w)
unfolding close_stored r_free free_mrl
close_stored-Good w n e (l, c) = (omega (arith, e, l), c)

-- Whatever clients opened and closed, in whatever order, and whatever the files and the demuxers
-- answered, as long as no call failed: each live resource counts the clients that have it open, and
-- has a fill pool if and only if there is one; and the paths that are allocated are as many as the
-- entries of the table, the stored resources that are open, and the calls that found no file where a
-- demuxer for stored resources expects one.
pub Reach-Ledger : (w : World) → Reach w → Ledger w
unfolding look_up
Reach-Ledger _ start = (refl, empty-IsCounted)
Reach-Ledger _ (later {w} r (opened f k e)) = subst Good e (open_path-Good f k w (Reach-Ledger w r))
Reach-Ledger _ (later {w} r (closed_stored n p e)) =
    subst Good e (close_stored-Good w n p (Reach-Ledger w r))
Reach-Ledger _ (later {w} r (closed_live xs k ys p q)) =
    let (n, c) = Reach-Ledger w r in
    (
      n ∙ ap (λ l. l + w.playing + w.lost) (sym (length-close_live k w.shelf)),
      subst (IsCounted (close_live k w.shelf)) (sym q)
          (close_live-IsCounted k w.shelf xs ys (subst (IsCounted w.shelf) p c)),
    )
