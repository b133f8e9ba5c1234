-- ===== src/Resource/Tests.antt =====
-- Instances of the theorems on resource.c.
use Prim.Native.String.{String}
use is_rtsp_server.Base.{◌≡◌, ◌≢◌, refl, Bool, true, false, some, [], ◌∷◌, fail, ok, dangling}
use is_rtsp_server.Resource.Shelf.{Shelf, look_up, open_hashed, close_live}
use is_rtsp_server.Resource.Opening.{
  File, stored, live, r_open, open_shared, open_found, open_direct, r_free, free_mrl, Ends,
  r_open-Ends,
}
use is_rtsp_server.Resource.Ledger.{
  World, empty_world, open_path, Reach, start, later, opened, closed_live, Ledger, Reach-Ledger,
}
use is_rtsp_server.Resource.Threads.{
  Shared, testing, reading, called, stop_joining, returned, IsStuck, Always, Reach as Run,
}
use is_rtsp_server.Resource.Pausing.{pause_deadlocks}
use is_rtsp_server.Resource.Stopping.{stop_returns}

abbrev opens : String → Bool
opens k = true

abbrev one_open : Shelf
one_open = ("a", record { count = 1; filling = true; resets = 0 }) ∷ []

one_opened : open_hashed opens "a" [] ≡ (one_open, true)
unfolding open_hashed
one_opened = refl

one_closed : close_live "a" one_open ≡ ("a", record { count = 0; filling = false; resets = 1 }) ∷ []
unfolding close_live
one_closed = refl

-- A live resource, one whose demuxer does not start, and a stored one that is a FIFO.
abbrev camera : File
camera = record { readable = true; demuxer = some live; found = true; fifo = false; starts = true }

abbrev broken : File
broken = record camera { starts = false }

abbrev pipe : File
pipe = record camera { demuxer = some stored; fifo = true }

r_open-Ends_example : Ends broken "a" [] (look_up "a" []) (r_open broken "a" [])
r_open-Ends_example = r_open-Ends broken "a" []

fails : r_open broken "a" [] ≡ fail dangling
unfolding r_open open_shared open_found open_direct r_free free_mrl look_up
fails = refl

-- A client opens the camera, another one the same, a third one the pipe; the first one leaves.
abbrev two_clients : World
two_clients = record {
  shelf = ("a", record { count = 2; filling = true; resets = 0 }) ∷ [];
  live_paths = "a" ∷ "a" ∷ [];
  playing = 0;
  texts = 1;
  lost = 0;
}

abbrev last_client : World
last_client = record two_clients {
  shelf = ("a", record { count = 1; filling = true; resets = 0 }) ∷ [];
  live_paths = "a" ∷ [];
  texts = 2;
  lost = 1;
}

first_opened :
    open_path camera "a" empty_world
    ≡ ok (record two_clients { shelf = one_open; live_paths = "a" ∷ [] })
unfolding open_path r_open open_shared open_found open_direct free_mrl look_up
first_opened = refl

second_opened :
    open_path camera "a" (record two_clients { shelf = one_open; live_paths = "a" ∷ [] })
    ≡ ok two_clients
unfolding open_path r_open open_shared open_found open_direct free_mrl look_up
second_opened = refl

pipe_refused : open_path pipe "b" two_clients ≡ ok (record two_clients { texts = 2; lost = 1 })
unfolding open_path r_open open_direct
pipe_refused = refl

reached : Reach last_client
unfolding close_live
reached =
    later
      (later
        (later (later start (opened camera "a" first_opened)) (opened camera "a" second_opened))
        (opened pipe "b" pipe_refused))
      (closed_live [] "a" ("a" ∷ []) refl refl)

Reach-Ledger_example : Ledger last_client
Reach-Ledger_example = Reach-Ledger last_client reached

abbrev playing : Shared
playing = record { pool = true; lock = false; eor = false; filler = testing; caller = called }

pause_deadlocks_example : (t : Shared) × Run playing t × IsStuck t × (t.caller ≢ returned)
pause_deadlocks_example = pause_deadlocks playing refl refl refl refl

abbrev stopping : Shared
stopping = record {
  pool = false;
  lock = true;
  eor = false;
  filler = reading;
  caller = stop_joining;
}

stop_returns_example : Always (λ u. u.caller ≡ returned) stopping
stop_returns_example =
    stop_returns stopping (record { joining = refl; cleared = refl; own_lock = λ l. refl })
