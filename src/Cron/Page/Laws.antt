-- ===== src/Cron/Page/Laws.antt =====
-- What the edits of a crontab's entries keep.
use vps_pilot.Base.{
  String, ◌≡◌, refl, sym, ap, ap₂, ◌∙◌, Bool, true, false, Option, none, some, List, [], ◌∷◌, map,
  ◌==◌, eq_iff, arith, if◌then◌else◌, Bool-cases, inl, inr,
}
use vps_pilot.Base.Text.{same_text}
use vps_pilot.Cron.Entry.{CronEntry}
use vps_pilot.Cron.Page.{
  CronPage, change_by_id, drop_by_id, save_entry, toggled, toggle_entry, delete_entry,
}

abbrev pub find : String → List CronEntry → Option CronEntry
find id [] = none
find id (e ∷ es) = let rest = find id es in if e.id == id then some e else rest

abbrev pub changed : (CronEntry → CronEntry) → Option CronEntry → Option CronEntry
changed f none = none
changed f (some e) = some (f e)

-- One step of `find` where the entry is the one that is changed, and where it is another.
hit :
    (b : Bool) (f : CronEntry → CronEntry) (e : CronEntry) (r : Option CronEntry)
    → (if b then some (f e) else (if b then changed f r else r))
      ≡ (if b then changed f (if b then some e else r) else (if b then some e else r))
hit true f e r = refl
hit false f e r = refl

miss :
    (b c : Bool) (f : CronEntry → CronEntry) (e : CronEntry) (r : Option CronEntry)
    → (b ≡ true → c ≡ false)
    → (if c then some e else (if b then changed f r else r))
      ≡ (if b then changed f (if c then some e else r) else (if c then some e else r))
miss true c f e r n = rw (n refl) refl
miss false c f e r n = refl

other_id : (k id j : String) → (k == id) ≡ false → (id == j) ≡ true → (k == j) ≡ false
other_id k id j f t = ground (arith, eq_iff k id, eq_iff id j, eq_iff k j)

module _ (id : String) (f : CronEntry → CronEntry)
    (keeps : (e : CronEntry) → e.id ≡ id → (f e).id ≡ id) where
  find-change_by_id :
      (j : String) (es : List CronEntry)
      → find j (change_by_id id f es) ≡ (if id == j then changed f (find j es) else find j es)
  find-change_by_id j [] = ground arith
  find-change_by_id j (e ∷ es) = elim (Bool-cases (e.id == id)) [
    | inl t ↦
        let same = same_text e.id id t in
        rw (t, find-change_by_id j es)
          (ap
              (λ k.
                if k == j
                then some (f e)
                else (if id == j then changed f (find j es) else find j es))
              (keeps e same)
            ∙ hit (id == j) f e (find j es)
            ∙ ap
                (λ k.
                  if id == j
                  then changed f (if k == j then some e else find j es)
                  else (if k == j then some e else find j es))
                (sym same))
    | inr d ↦
        rw (d, find-change_by_id j es)
          (miss (id == j) (e.id == j) f e (find j es) (other_id e.id id j d))
  ]

  ids-change_by_id :
      (es : List CronEntry) → map (λ e. e.id) (change_by_id id f es) ≡ map (λ e. e.id) es
  ids-change_by_id [] = refl
  ids-change_by_id (e ∷ es) = ap₂ (λ k ks. k ∷ ks) (kept (e.id == id) refl) (ids-change_by_id es)
    where
      kept : (b : Bool) → (e.id == id) ≡ b → (if b then f e else e).id ≡ e.id
      kept true t = keeps e (same_text e.id id t) ∙ sym (same_text e.id id t)
      kept false t = refl

drop_hit :
    (b : Bool) (e : CronEntry) (r : Option CronEntry)
    → (if b then none else r) ≡ (if b then none else (if b then some e else r))
drop_hit true e r = refl
drop_hit false e r = refl

drop_miss :
    (b c : Bool) (e : CronEntry) (r : Option CronEntry)
    → (b ≡ true → c ≡ false)
    → (if c then some e else (if b then none else r))
      ≡ (if b then none else (if c then some e else r))
drop_miss true c e r n = rw (n refl) refl
drop_miss false c e r n = refl

find-drop_by_id :
    (id j : String) (es : List CronEntry)
    → find j (drop_by_id id es) ≡ (if id == j then none else find j es)
find-drop_by_id id j [] = ground arith
find-drop_by_id id j (e ∷ es) = elim (Bool-cases (e.id == id)) [
  | inl t ↦
      rw (t, find-drop_by_id id j es)
        (drop_hit (id == j) e (find j es)
          ∙ ap (λ k. if id == j then none else (if k == j then some e else find j es))
              (sym (same_text e.id id t)))
  | inr d ↦
      rw (d, find-drop_by_id id j es)
        (drop_miss (id == j) (e.id == j) e (find j es) (other_id e.id id j d))
]

-- A toggle changes the entry of its id alone, a deletion takes it out, a saved edit stands under
-- the old id, the others stay, and a toggle and an edit keep the order of the ids.
pub page_edits :
    (now j : String) (old new : CronEntry) (p : CronPage)
    → (find j (toggle_entry old.id p).entries
        ≡ (if old.id == j then changed toggled (find j p.entries) else find j p.entries))
      × (find j (delete_entry old.id p).entries ≡ (if old.id == j then none else find j p.entries))
      × (find j (save_entry now (some old) new p).entries ≡ (
          if old.id == j
          then changed (λ e. record new { id = old.id }) (find j p.entries)
          else find j p.entries))
      × (map (λ e. e.id) (toggle_entry old.id p).entries ≡ map (λ e. e.id) p.entries)
      × (map (λ e. e.id) (save_entry now (some old) new p).entries ≡ map (λ e. e.id) p.entries)
unfolding toggle_entry delete_entry save_entry
page_edits now j old new p = (
  find-change_by_id old.id toggled (λ e h. h) j p.entries,
  find-drop_by_id old.id j p.entries,
  find-change_by_id old.id (λ e. record new { id = old.id }) (λ e h. refl) j p.entries,
  ids-change_by_id old.id toggled (λ e h. h) p.entries,
  ids-change_by_id old.id (λ e. record new { id = old.id }) (λ e h. refl) p.entries,
)
