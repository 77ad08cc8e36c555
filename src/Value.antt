-- ===== src/Value.antt =====
-- lib/Value.cc and include/Value.h: the handles on a value that is shared and counted. The objects
-- stand in a store under addresses, and the variables of type `Value` are numbered in the order in
-- which they come into being.
pub mod Count
pub mod Laws
pub mod Quantity
use meteo.Base.{
  ℕ, zero, suc, ◌+◌, ◌==◌, Bool, true, false, List, [], ◌∷◌, ◌++◌, Option, none, some, Result, ok,
  err, ◌>>=◌, undefined, no_value, if◌then◌else◌, get_elem?,
}
use meteo.Base.Int.{ℤ, pos, negsuc, ◌+ℤ◌, ◌-ℤ◌}

-- The member `bv`: NULL, an address, or nothing that was ever set. `ended` is a variable behind its
-- destructor.
pub data Handle : Type 0 where
  null uninitialised ended : Handle
  to : ℕ → Handle

-- A BasicValue with its `refcount`, an int that the model takes without its bound.
pub record Cell (A : Type 0) : Type 0 where
  pub refcount : ℤ
  pub object : A

abbrev pub Cells : Type 0 → Type 0
Cells A = ℕ → Option (Cell A)

-- `next` is the address that `new` gives.
pub record Store (A : Type 0) : Type 0 where
  pub cells : Cells A
  pub next : ℕ
  pub handles : List Handle

abbrev pub set_handle : ℕ → Handle → List Handle → List Handle
set_handle i h [] = []
set_handle zero h (_ ∷ hs) = h ∷ hs
set_handle (suc i) h (k ∷ hs) = k ∷ set_handle i h hs

-- A variable that the program can still name.
abbrev pub initialised : Option Handle → Result Handle
initialised none = err undefined
initialised (some uninitialised) = err undefined
initialised (some ended) = err undefined
initialised (some null) = ok null
initialised (some (to a)) = ok (to a)

-- The copy constructor sets nothing where the other is NULL.
abbrev pub copied : Handle → Handle
copied null = uninitialised
copied uninitialised = uninitialised
copied ended = uninitialised
copied (to a) = to a

module _ {A : Type 0} where
  abbrev pub handle : ℕ → Store A → Result Handle
  handle i s = initialised (get_elem? s.handles i)

  abbrev pub put : ℕ → Option (Cell A) → Cells A → Cells A
  put a c m b = if a == b then c else m b

  abbrev pub at : Option (Cell A) → Result (Cell A)
  at none = err undefined
  at (some c) = ok c

  -- `if (NULL != bv) bv->refcount++`
  unfoldable pub retain : Handle → Cells A → Result (Cells A)
  retain null m = ok m
  retain uninitialised m = err undefined
  retain ended m = err undefined
  retain (to a) m =
      at (m a) >>= λ c. ok (put a (some record c { refcount = c.refcount +ℤ pos 1 }) m)

  abbrev pub kept : ℤ → A → Option (Cell A)
  kept (pos zero) v = none
  kept (pos (suc n)) v = some record { refcount = pos (suc n); object = v }
  kept (negsuc n) v = some record { refcount = negsuc n; object = v }

  -- `if (NULL != bv) if (--bv->refcount == 0) delete bv`
  unfoldable pub release : Handle → Cells A → Result (Cells A)
  release null m = ok m
  release uninitialised m = err undefined
  release ended m = err undefined
  release (to a) m = at (m a) >>= λ c. ok (put a (kept (c.refcount -ℤ pos 1) c.object) m)

  -- Value(BasicValue *), with the `new` of the factory that calls it
  unfoldable pub construct : A → Store A → Store A
  construct v s = record {
    cells = put s.next (some record { refcount = pos 1; object = v }) s.cells;
    next = s.next + 1;
    handles = s.handles ++ (to s.next ∷ []);
  }

  -- Value(void)
  abbrev pub declare : Store A → Store A
  declare s = record s { handles = s.handles ++ (null ∷ []) }

  -- Value(const Value&)
  unfoldable pub copy : ℕ → Store A → Result (Store A)
  unfolding retain
  copy j s = handle j s >>= λ other. retain other s.cells >>= λ m.
      ok (record s { cells = m; handles = s.handles ++ (copied other ∷ []) })

  -- Value::operator=
  unfoldable pub assign : ℕ → ℕ → Store A → Result (Store A)
  unfolding retain release
  assign i j s = handle i s >>= λ this. handle j s >>= λ other. retain other s.cells >>= λ m.
      release this m >>= λ m'. ok (record s { cells = m'; handles = set_handle i other s.handles })

  -- Value::~Value
  unfoldable pub destroy : ℕ → Store A → Result (Store A)
  unfolding release
  destroy i s = handle i s >>= λ this. release this s.cells >>= λ m.
      ok (record s { cells = m; handles = set_handle i ended s.handles })

  -- `bv->` behind the test for NULL
  abbrev pub look : Handle → Cells A → Result (Cell A)
  look null m = err no_value
  look uninitialised m = err undefined
  look ended m = err undefined
  look (to a) m = at (m a)

  -- Value::getValue
  unfoldable pub get_value : ℕ → Store A → Result A
  get_value i s = handle i s >>= λ this. look this s.cells >>= λ c. ok c.object

  -- Value::setValue
  abbrev pub write : Handle → A → Cell A → Cells A → Cells A
  write null v c m = m
  write uninitialised v c m = m
  write ended v c m = m
  write (to a) v c m = put a (some record c { object = v }) m

  unfoldable pub set_value : ℕ → A → Store A → Result (Store A)
  set_value i v s = handle i s >>= λ this.
      look this s.cells >>= λ c. ok (record s { cells = write this v c s.cells })
