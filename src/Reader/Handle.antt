-- ===== src/Reader/Handle.antt =====
-- lib/PacketReader.cc: the handles on a BasicPacketReader. Copies, assignments and the destructor are those
-- of lib/Value.cc; the constructor takes an object that the factory has made.
use meteo.Base.{
  ℕ, some, ◌++◌, ◌∷◌, [], Result, ok, err, ◌>>=◌, no_payload, already_managed, if◌then◌else◌,
}
use meteo.Base.Int.{pos, ltb_ℤ}
use meteo.Value.{Handle, null, uninitialised, ended, to, Cells, Store, handle, put, at}
use meteo.Base.{undefined}

module _ {A : Type 0} where
  -- PacketReader(BasicPacketReader *)
  unfoldable pub manage : ℕ → Store A → Result (Store A)
  manage a s = at (s.cells a) >>= λ b.
      if ltb_ℤ (pos 0) b.refcount
      then err already_managed
      else ok record s {
        cells = put a (some record b { refcount = pos 1 }) s.cells;
        handles = s.handles ++ (to a ∷ []);
      }

  -- `bpr->` behind the test for NULL: operator(), v, valid and calibrate
  abbrev pub payload : Handle → Cells A → Result A
  payload null m = err no_payload
  payload uninitialised m = err undefined
  payload ended m = err undefined
  payload (to a) m = at (m a) >>= λ c. ok c.object

  unfoldable pub delegate : ℕ → Store A → Result A
  delegate i s = handle i s >>= λ this. payload this s.cells
