-- ===== src/Net/Arp/Cache.antt =====
-- The ARP cache of src/net/arp.cpp: 16 entries under one lock. An address is the number that its bytes
-- spell, the first byte the highest.
use vkernel.Common.{
  ℕ, ◌+◌, ◌%◌, Bool, true, false, ◌&&◌, not, Option, none, some, List, [], ◌∷◌, ◌==◌, if◌then◌else◌,
  set, replicate,
}

pub record Entry : Type 0 where
  pub valid : Bool
  pub ip : ℕ
  pub mac : ℕ

abbrev pub max_cache_entries : ℕ
max_cache_entries = 16

pub record Cache : Type 0 where
  pub entries : List Entry
  pub next_replace : ℕ

-- `init`
abbrev pub init : Cache
init = record {
  entries = replicate max_cache_entries (record { valid = false; ip = 0; mac = 0 });
  next_replace = 0;
}

abbrev pub holds : Entry → ℕ → Bool
holds e ip = e.valid && e.ip == ip

abbrev pub behind : Entry → Option (List Entry) → Option (List Entry)
behind e none = none
behind e (some es) = some (e ∷ es)

-- The first loop of `cache_insert_locked`.
unfoldable pub update_known : ℕ → ℕ → List Entry → Option (List Entry)
update_known ip mac [] = none
update_known ip mac (e ∷ es) =
    let rest = update_known ip mac es in
    if holds e ip then some (record e { mac = mac } ∷ es) else behind e rest

abbrev pub valid_entry : ℕ → ℕ → Entry
valid_entry ip mac = record { valid = true; ip = ip; mac = mac }

-- The second loop.
unfoldable pub fill_free : ℕ → ℕ → List Entry → Option (List Entry)
fill_free ip mac [] = none
fill_free ip mac (e ∷ es) =
    let rest = fill_free ip mac es in
    if not e.valid then some (valid_entry ip mac ∷ es) else behind e rest

-- Behind the loops the entries are replaced in turn.
unfoldable pub or_replace : Cache → ℕ → ℕ → Option (List Entry) → Cache
or_replace c ip mac (some es) = record c { entries = es }
or_replace c ip mac none = record {
  entries = set c.entries c.next_replace (valid_entry ip mac);
  next_replace = (c.next_replace + 1) % max_cache_entries;
}

unfoldable pub or_fill : Cache → ℕ → ℕ → Option (List Entry) → Cache
unfolding or_replace fill_free
or_fill c ip mac (some es) = record c { entries = es }
or_fill c ip mac none = or_replace c ip mac (fill_free ip mac c.entries)

-- `cache_insert_locked`
unfoldable pub insert : Cache → ℕ → ℕ → Cache
unfolding or_fill update_known
insert c ip mac = or_fill c ip mac (update_known ip mac c.entries)

-- `cache_lookup_locked`
unfoldable pub lookup : List Entry → ℕ → Option ℕ
lookup [] ip = none
lookup (e ∷ es) ip = let rest = lookup es ip in if holds e ip then some e.mac else rest

-- `cache_entry_count`
unfoldable pub entry_count : List Entry → ℕ
entry_count [] = 0
entry_count (e ∷ es) = let rest = entry_count es in if e.valid then rest + 1 else rest

-- `cache_entry`, with `visible` entries seen.
unfoldable pub cache_entry : List Entry → ℕ → ℕ → Option (ℕ × ℕ)
cache_entry [] visible index = none
cache_entry (e ∷ es) visible index =
    let next = cache_entry es (visible + 1) index in
    let same = cache_entry es visible index in
    if not e.valid then same else (if visible == index then some (e.ip, e.mac) else next)
