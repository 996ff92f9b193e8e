-- ===== src/Net/Arp/Lookup.antt =====
-- What the ARP cache answers after an insertion, and what it shows of its entries.
use vkernel.Common.{
  ℕ, zero, suc, ◌+◌, ◌≤◌, ◌<◌, ◌≡◌, ◌≢◌, ◌⊎◌, ◌↔◌, inl, inr, refl, true, false, Option, none, some,
  List, [], ◌∷◌, ◌==◌, arith, Bool-cases, Option-cases, length, set, get_elem?, length-set, ap, ◌∙◌,
  ==_refl,
}
use vkernel.Net.Arp.Cache.{
  Entry, Cache, max_cache_entries, holds, behind, update_known, valid_entry, fill_free, or_replace,
  or_fill, insert, lookup, entry_count, cache_entry,
}

pub record IsValid (c : Cache) : Type 0 where
  pub size : length c.entries ≡ max_cache_entries
  pub next : c.next_replace < max_cache_entries

-- `es'` answers for one address anew, and else as before.
record Updates (ip mac : ℕ) (es es' : List Entry) : Type 0 where
  found : lookup es' ip ≡ some mac
  others : (j : ℕ) → j ≢ ip → lookup es' j ≡ lookup es j
  size : length es' ≡ length es

Updates-behind :
    (ip mac : ℕ) (e : Entry) (es es' : List Entry)
    → holds e ip ≡ false
    → Updates ip mac es es'
    → Updates ip mac (e ∷ es) (e ∷ es')
unfolding lookup
Updates-behind ip mac e es es' h u = record {
  found = rw h u.found;
  others =
      λ j ne. elim (Bool-cases (holds e j)) [ inl k ↦ rw k refl | inr k ↦ rw k (u.others j ne) ];
  size = ap suc u.size;
}

Updates-head :
    (ip mac : ℕ) (e e' : Entry) (es : List Entry)
    → holds e' ip ≡ true
    → e'.mac ≡ mac
    → ((j : ℕ) → j ≢ ip → (holds e j ≡ false) × (holds e' j ≡ false))
    → Updates ip mac (e ∷ es) (e' ∷ es)
unfolding lookup
Updates-head ip mac e e' es h m apart = record {
  found = rw h (ap some m);
  others = λ j ne. rw ((apart j ne).0, (apart j ne).1) refl;
  size = refl;
}

behind-some :
    (e : Entry) (o : Option (List Entry)) (es' : List Entry)
    → behind e o ≡ some es'
    → (r : List Entry) × (o ≡ some r) × (e ∷ r ≡ es')
behind-some e none es' h = absurd (cc)
behind-some e (some r) es' h = (r, refl, cc)

holds_other :
    (e : Entry) (ip j : ℕ) → holds e ip ≡ true → j ≢ ip → (holds e j ≡ false) × (holds e j ≡ false)
holds_other e ip j k ne = let h : holds e j ≡ false = ground arith in (h, h)

free_holds : (e : Entry) (j : ℕ) → e.valid ≡ false → holds e j ≡ false
free_holds e j v = simp v refl

new_holds : (j ip mac : ℕ) → j ≢ ip → holds (valid_entry ip mac) j ≡ false
new_holds j ip mac ne = ground arith

update_known-Updates :
    (ip mac : ℕ) (es es' : List Entry) → update_known ip mac es ≡ some es' → Updates ip mac es es'
unfolding update_known
update_known-Updates ip mac [] es' = λ h. absurd (cc)
update_known-Updates ip mac (e ∷ es) es' = elim (Bool-cases (holds e ip)) [
  | inl k ↦ rw k (λ h.
      let q : record e { mac = mac } ∷ es ≡ es' = cc in
      rw (← q) (
        Updates-head ip mac e (record e { mac = mac }) es k refl (λ j ne. holds_other e ip j k ne)))
  | inr k ↦ rw k (λ h.
      let b = behind-some e (update_known ip mac es) es' h in
      rw (← b.2) (Updates-behind ip mac e es b.0 k (update_known-Updates ip mac es b.0 b.1)))
]

update_known-none :
    (ip mac : ℕ) (es : List Entry) → update_known ip mac es ≡ none → lookup es ip ≡ none
unfolding update_known lookup
update_known-none ip mac [] = λ h. refl
update_known-none ip mac (e ∷ es) = elim (Bool-cases (holds e ip)) [
  | inl k ↦ rw k (λ h. absurd (cc))
  | inr k ↦ rw k (elim (Option-cases (update_known ip mac es)) [
    | inl n ↦ λ h. update_known-none ip mac es n
    | inr (r, n) ↦ rw n (λ h. absurd (cc))
  ])
]

fill_free-Updates :
    (ip mac : ℕ) (es es' : List Entry)
    → lookup es ip ≡ none
    → fill_free ip mac es ≡ some es'
    → Updates ip mac es es'
unfolding fill_free lookup
fill_free-Updates ip mac [] es' = λ l h. absurd (cc)
fill_free-Updates ip mac (e ∷ es) es' = elim (Bool-cases (holds e ip)) [
  | inl k ↦ rw k (λ l h. absurd (cc))
  | inr k ↦ rw k (λ l. elim (Bool-cases e.valid) [
    | inl v ↦ simp v (λ h.
        let b = behind-some e (fill_free ip mac es) es' h in
        rw (← b.2) (Updates-behind ip mac e es b.0 k (fill_free-Updates ip mac es b.0 l b.1)))
    | inr v ↦ simp v (λ h.
        let q : valid_entry ip mac ∷ es ≡ es' = cc in
        rw (← q) (
          Updates-head ip mac e (valid_entry ip mac) es (==_refl ip) refl
            (λ j ne. (free_holds e j v, new_holds j ip mac ne))))
  ])
]

fill_free_full :
    (ip mac : ℕ) (es : List Entry) → fill_free ip mac es ≡ none → entry_count es ≡ length es
unfolding fill_free entry_count
fill_free_full ip mac [] = λ h. refl
fill_free_full ip mac (e ∷ es) = elim (Bool-cases e.valid) [
  | inr v ↦ simp v (λ h. absurd (cc))
  | inl v ↦ simp v (elim (Option-cases (fill_free ip mac es)) [
    | inl n ↦ λ h. omega (arith, fill_free_full ip mac es n)
    | inr (r, n) ↦ rw n (λ h. absurd (cc))
  ])
]

-- The entry that is replaced.
lookup-set_same :
    (es : List Entry) (k ip mac : ℕ)
    → lookup es ip ≡ none
    → k < length es
    → lookup (set es k (valid_entry ip mac)) ip ≡ some mac
unfolding lookup
lookup-set_same [] k ip mac = λ l h. absurd (omega arith)
lookup-set_same (e ∷ es) zero ip mac = λ l h. rw (==_refl ip) refl
lookup-set_same (e ∷ es) (suc k) ip mac = elim (Bool-cases (holds e ip)) [
  | inl t ↦ rw t (λ l h. absurd (cc))
  | inr t ↦ rw t (λ l h. lookup-set_same es k ip mac l (omega arith))
]

-- An answer that is lost is that of the entry replaced.
lookup-set_other :
    (es : List Entry) (k ip mac j : ℕ)
    → j ≢ ip
    → (lookup (set es k (valid_entry ip mac)) j ≡ lookup es j)
      ⊎ ((e : Entry) × (get_elem? es k ≡ some e) × (holds e j ≡ true))
unfolding lookup
lookup-set_other [] k ip mac j ne = inl refl
lookup-set_other (e ∷ es) zero ip mac j ne = elim (Bool-cases (holds e j)) [
  | inl t ↦ inr (e, refl, t)
  | inr t ↦ let n = new_holds j ip mac ne in rw (t, n) (inl refl)
]
lookup-set_other (e ∷ es) (suc k) ip mac j ne = elim (Bool-cases (holds e j)) [
  | inl t ↦ rw t (inl refl)
  | inr t ↦ rw t (lookup-set_other es k ip mac j ne)
]

-- What an insertion does to the answers.
record Answers (c : Cache) (ip mac : ℕ) (d : Cache) : Type 0 where
  found : lookup d.entries ip ≡ some mac
  others :
      (j : ℕ)
      → j ≢ ip
      → (lookup d.entries j ≡ lookup c.entries j)
        ⊎ ((entry_count c.entries ≡ max_cache_entries)
            × ((e : Entry) × (get_elem? c.entries c.next_replace ≡ some e) × (holds e j ≡ true)))
  valid : IsValid d

Updates-Answers :
    (c : Cache) (ip mac : ℕ) (es : List Entry)
    → IsValid c
    → Updates ip mac c.entries es
    → Answers c ip mac (record c { entries = es })
Updates-Answers c ip mac es v u = record {
  found = u.found;
  others = λ j ne. inl (u.others j ne);
  valid = record { size = u.size ∙ v.size; next = v.next };
}

or_replace-Answers :
    (c : Cache) (ip mac : ℕ) (o : Option (List Entry))
    → IsValid c
    → lookup c.entries ip ≡ none
    → fill_free ip mac c.entries ≡ o
    → Answers c ip mac (or_replace c ip mac o)
unfolding or_replace
or_replace-Answers c ip mac (some es) v l q =
    Updates-Answers c ip mac es v (fill_free-Updates ip mac c.entries es l q)
or_replace-Answers c ip mac none v l q = record {
  found = lookup-set_same c.entries c.next_replace ip mac l (omega (arith, v.size, v.next));
  others = λ j ne. elim (lookup-set_other c.entries c.next_replace ip mac j ne) [
    | inl e ↦ inl e
    | inr e ↦ inr (fill_free_full ip mac c.entries q ∙ v.size, e)
  ];
  valid = record {
    size = length-set c.entries c.next_replace (valid_entry ip mac) ∙ v.size;
    next = omega arith;
  };
}

or_fill-Answers :
    (c : Cache) (ip mac : ℕ) (o : Option (List Entry))
    → IsValid c
    → update_known ip mac c.entries ≡ o
    → Answers c ip mac (or_fill c ip mac o)
unfolding or_fill
or_fill-Answers c ip mac (some es) v q =
    Updates-Answers c ip mac es v (update_known-Updates ip mac c.entries es q)
or_fill-Answers c ip mac none v q =
    or_replace-Answers c ip mac (fill_free ip mac c.entries) v
      (update_known-none ip mac c.entries q) refl

insert-Answers : (c : Cache) (ip mac : ℕ) → IsValid c → Answers c ip mac (insert c ip mac)
unfolding insert
insert-Answers c ip mac v = or_fill-Answers c ip mac (update_known ip mac c.entries) v refl

-- From a cache of 16 entries whose replacement index is in range: behind an insertion the cache is so
-- again, and answers with the address that was inserted.
pub lookup-insert :
    (c : Cache) (ip mac : ℕ)
    → IsValid c
    → (lookup (insert c ip mac).entries ip ≡ some mac) × IsValid (insert c ip mac)
lookup-insert c ip mac v = let a = insert-Answers c ip mac v in (a.found, a.valid)

-- For every other address an insertion into such a cache leaves the answer as it was, unless all 16
-- entries were in use and the one whose turn it was held that address.
pub lookup-insert_other :
    (c : Cache) (ip mac j : ℕ)
    → IsValid c
    → j ≢ ip
    → (lookup (insert c ip mac).entries j ≡ lookup c.entries j)
      ⊎ ((entry_count c.entries ≡ max_cache_entries)
          × ((e : Entry) × (get_elem? c.entries c.next_replace ≡ some e) × (holds e j ≡ true)))
lookup-insert_other c ip mac j v ne = (insert-Answers c ip mac v).others j ne

-- The indices from `visible` on for which `cache_entry` answers are as many as the entries in use.
cache_entry_from :
    (es : List Entry) (visible index : ℕ)
    → visible ≤ index
    → (cache_entry es visible index ≢ none) ↔ (index < visible + entry_count es)
unfolding cache_entry entry_count
cache_entry_from [] visible index le = (λ h. absurd (h refl), λ h. absurd (omega arith))
cache_entry_from (e ∷ es) visible index le = elim (Bool-cases e.valid) [
  | inr v ↦ simp v (cache_entry_from es visible index le)
  | inl v ↦ simp v (elim (Bool-cases (visible == index)) [
    | inl q ↦ rw q (λ h. ground arith, λ h n. absurd (cc))
    | inr q ↦
        let r = cache_entry_from es (visible + 1) index (ground arith) in
        rw q (λ h. omega (arith, r.0 h), λ h. r.1 (omega arith))
  ])
]

-- The shell that asks for entry 0, 1, ... gets exactly as many as `cache_entry_count` says.
pub cache_entry-entry_count :
    (es : List Entry) (index : ℕ) → (cache_entry es 0 index ≢ none) ↔ (index < entry_count es)
cache_entry-entry_count es index =
    let r = cache_entry_from es 0 index (omega arith) in
    (λ h. omega (arith, r.0 h), λ h. r.1 (omega arith))
