-- ===== src/Names.antt =====
-- lib/FQField_internals.cc: the ids of fields by their fully qualified names, with the caches in front of the
-- database. A name is the list of its characters. The two queries of the database are a parameter.
pub mod Split
pub mod Laws
use meteo.Base.{
  ℕ, ◌==◌, ◌&&◌, Bool, true, false, List, [], ◌∷◌, ◌++◌, Option, none, some, Result, ok, err, ◌>>=◌,
  if◌then◌else◌, two_dots_needed, nothing_known,
}
use meteo.Query.{FieldId, same_id}

abbrev pub Name : Type 0
Name = List ℕ

abbrev pub same_name : Name → Name → Bool
same_name [] [] = true
same_name [] (_ ∷ _) = false
same_name (_ ∷ _) [] = false
same_name (a ∷ x) (b ∷ y) = a == b && same_name x y

-- fqfieldname
pub record FqName : Type 0 where
  pub stationname : Name
  pub sensorname : Name
  pub fieldname : Name

-- find('.') and the two sides of it
abbrev pub onto : ℕ → Option (Name × Name) → Option (Name × Name)
onto c none = none
onto c (some (a, b)) = some (c ∷ a, b)

abbrev pub cut_at_dot : Name → Option (Name × Name)
cut_at_dot [] = none
cut_at_dot (c ∷ s) = let rest = onto c (cut_at_dot s) in if c == 46 then some ([], s) else rest

abbrev pub split_station : Name → Option (Name × Name) → Result FqName
split_station st none = err two_dots_needed
split_station st (some (se, f)) = ok record { stationname = st; sensorname = se; fieldname = f }

abbrev pub split_at : Name → Option (Name × Name) → Result FqName
split_at f none = ok record { stationname = []; sensorname = []; fieldname = f }
split_at f (some (st, r)) = split_station st (cut_at_dot r)

-- FQField_internals::split and fqfieldname::getString
unfoldable pub split : Name → Result FqName
split f = split_at f (cut_at_dot f)

unfoldable pub fq_string : FqName → Name
fq_string fq = fq.stationname ++ (46 ∷ (fq.sensorname ++ (46 ∷ fq.fieldname)))

-- What the database answers, by a name, and by a sensor and a field with the name and the station.
pub record Database : Type 0 where
  pub by_name : FqName → Option FieldId
  pub by_ids : ℕ → ℕ → Option (FqName × ℕ)

-- The three maps. A station of -1 stands in the keys of `stationmap` only, which leave it out here.
pub record Cache : Type 0 where
  pub field2fqmap : List (FieldId × FqName)
  pub string2fieldmap : List (Name × FieldId)
  pub stationmap : List ((ℕ × ℕ) × ℕ)

-- `find` in the maps, of which only `insert` is used besides: of two entries the older one counts.
abbrev pub find_name : List (Name × FieldId) → Name → Option FieldId
find_name [] f = none
find_name ((k, id) ∷ m) f = let rest = find_name m f in if same_name k f then some id else rest

abbrev pub find_station : List ((ℕ × ℕ) × ℕ) → ℕ → ℕ → Option ℕ
find_station [] s f = none
find_station (((s', f'), st) ∷ m) s f =
    let rest = find_station m s f in if s' == s && f' == f then some st else rest

-- lookup, where the database has the name
abbrev pub remember : FqName → FieldId → Cache → Cache
remember fq id s = record {
  field2fqmap = s.field2fqmap ++ (id, fq) ∷ [];
  string2fieldmap = s.string2fieldmap ++ (fq_string fq, id) ∷ [];
  stationmap = s.stationmap ++ ((id.sensorid, id.mfieldid), id.stationid) ∷ [];
}

-- lookup by a sensor and a field, where the database has them
abbrev pub remember_ids : FqName → FieldId → Cache → Cache
remember_ids fq id s = record {
  field2fqmap = s.field2fqmap ++ (id, fq) ∷ [];
  string2fieldmap = s.string2fieldmap ++ (fq_string fq, id) ∷ [];
  stationmap = s.stationmap;
}

abbrev pub answered : FqName → Option FieldId → Cache → Result FieldId × Cache
answered fq none s = (err nothing_known, s)
answered fq (some id) s = (ok id, remember fq id s)

abbrev pub id_of : ℕ → ℕ → ℕ → FieldId
id_of st s f = record { stationid = st; sensorid = s; mfieldid = f }

module _ (db : Database) where
  abbrev pub asked : Result FqName → Cache → Result FieldId × Cache
  asked (err e) s = (err e, s)
  asked (ok fq) s = answered fq (db.by_name fq) s

  abbrev pub from_cache : Name → Option FieldId → Cache → Result FieldId × Cache
  from_cache f (some id) s = (ok id, s)
  from_cache f none s = asked (split f) s

  -- lookup(const std::string&)
  unfoldable pub lookup : Name → Cache → Result FieldId × Cache
  lookup f s = from_cache f (find_name s.string2fieldmap f) s

  abbrev pub asked_ids : ℕ → ℕ → Option (FqName × ℕ) → Cache → Result FieldId × Cache
  asked_ids s f none c = (err nothing_known, c)
  asked_ids s f (some (fq, st)) c = (ok (id_of st s f), remember_ids fq (id_of st s f) c)

  abbrev pub from_stations : ℕ → ℕ → Option ℕ → Cache → Result FieldId × Cache
  from_stations s f (some st) c = (ok (id_of st s f), c)
  from_stations s f none c = asked_ids s f (db.by_ids s f) c

  -- getFieldid(int, int): lookup of an id whose station is -1, which no key of `field2fqmap` has
  unfoldable pub lookup_ids : ℕ → ℕ → Cache → Result FieldId × Cache
  lookup_ids s f c = from_stations s f (find_station c.stationmap s f) c

-- A run of requests to the one object that every FQField shares.
pub data Request : Type 0 where
  by_fieldname : Name → Request
  by_numbers : ℕ → ℕ → Request

abbrev pub no_entries : Cache
no_entries = record { field2fqmap = []; string2fieldmap = []; stationmap = [] }

unfoldable pub get_fieldid : Database → Request → Cache → Result FieldId × Cache
unfolding lookup lookup_ids
get_fieldid db (Request.by_fieldname f) c = lookup db f c
get_fieldid db (Request.by_numbers s f) c = lookup_ids db s f c

unfoldable pub run : Database → List Request → Cache → List (Result FieldId)
run db [] c = []
run db (r ∷ rs) c = (get_fieldid db r c).0 ∷ run db rs (get_fieldid db r c).1
