-- ===== src/Service/Closing.antt =====
-- main.rs: what closing an incident or a task may change.
use kyb.Common.{
  Bool, false, ◌≡◌, subst, refl, sym, ap, ◌∙◌, inl, inr, Option, none, some, Text, ok, Bool-cases,
  arith,
}
use kyb.Entry.{Entry, is_valid_key}
use kyb.Service.{View, stored_version, is_blank, stamp_timeline}
use kyb.Service.Requests.{ResolveReq, Extra}
use kyb.Service.Moving.{close_entry, close_stored, closed_with, wrong_kind}
use kyb.Service.Timeline.{or_stored-is_blank, Stamped, with_stamps, stamp_timeline_lem}

-- The entry with the outcome and the stamps of another.
abbrev pub with_outcome : Entry → Entry → Entry
with_outcome old e =
    with_stamps
      (record old {
        status = e.status;
        blocked_reason = e.blocked_reason;
        resolution = e.resolution;
      })
      e

abbrev Closes : ResolveReq → Entry → Entry → Type 0
Closes r old e =
    (e ≡ with_outcome old e)
    × (is_blank old.resolution ≡ false → is_blank e.resolution ≡ false)
    × (is_blank r.resolution ≡ false → e.resolution ≡ r.resolution)
    × Stamped e

-- An entry with three fields set, and the stamps of another.
abbrev outcome : Entry → Entry → Text → Text → Text → Entry
outcome old e status reason resolution =
    with_stamps (record old { status = status; blocked_reason = reason; resolution = resolution }) e

outcome-fields :
    (old e : Entry) (status reason resolution : Text)
    → e ≡ outcome old e status reason resolution
    → e ≡ with_outcome old e
outcome-fields old e status reason resolution h =
    h
    ∙ ap (λ z. outcome old e z reason resolution) (sym (ap Entry.status h))
    ∙ ap (λ z. outcome old e e.status z resolution) (sym (ap Entry.blocked_reason h))
    ∙ ap (λ z. outcome old e e.status e.blocked_reason z) (sym (ap Entry.resolution h))

closed_with-Closes :
    (v : View) (now : Text) (want_task : Bool) (r : ResolveReq) (old : Entry)
    → is_blank now ≡ false
    → Closes r old (stamp_timeline v now (closed_with want_task r old))
closed_with-Closes v now want r old n =
    let (only, stamped, _, _) = stamp_timeline_lem v now (closed_with want r old) n in
    let c = closed_with want r old in
    let resolution = ap Entry.resolution only in
    (
      outcome-fields old (stamp_timeline v now c) c.status c.blocked_reason c.resolution only,
      λ kept. ap is_blank resolution ∙ or_stored-is_blank r.resolution old.resolution kept,
      λ new. resolution ∙ rw new refl,
      stamped,
    )

close_stored-Closes :
    (v : View) (now : Text) (want_task : Bool) (r : ResolveReq) (stored : Option Entry) (e : Entry)
    (x : Extra)
    → is_blank now ≡ false
    → close_stored v now want_task r stored ≡ ok (e, x)
    → (old : Entry) × (stored ≡ some old)
      × (wrong_kind want_task old ≡ false)
      × (e ≡ with_outcome old e)
      × (is_blank old.resolution ≡ false → is_blank e.resolution ≡ false)
      × (is_blank r.resolution ≡ false → e.resolution ≡ r.resolution)
      × Stamped e
close_stored-Closes v now want r none e x n h = ground (arith, h)
close_stored-Closes v now want r (some old) e x n h = elim (Bool-cases (wrong_kind want old)) [
  | inl w ↦ let h' = (rw w at h) in ground (arith, h')
  | inr w ↦
      let h' = (rw w at h) in
      let same : stamp_timeline v now (closed_with want r old) ≡ e = ground (arith, h') in
      let (only, kept, told, stamped) =
        subst (Closes r old) same (closed_with-Closes v now want r old n) in
      (old, refl, w, only, kept, told, stamped)
]

-- A close that is not refused reads the stored version, an incident or a task as the route asks.
-- But for its status, reason of a block, resolution and stamps it is the stored one; its resolution is that of
-- the request where it has one, and a resolution that was recorded is not wiped; and, where the clock says something,
-- every stamp that is due is there.
pub close_entry-keeps :
    (v : View) (now key : Text) (want_task : Bool) (r : ResolveReq) (e : Entry) (x : Extra)
    → is_blank now ≡ false
    → close_entry v now key want_task r ≡ ok (e, x)
    → (old : Entry) × (stored_version v key ≡ some old)
      × (wrong_kind want_task old ≡ false)
      × (e ≡ with_outcome old e)
      × (is_blank old.resolution ≡ false → is_blank e.resolution ≡ false)
      × (is_blank r.resolution ≡ false → e.resolution ≡ r.resolution)
      × Stamped e
unfolding close_entry
close_entry-keeps v now key want r e x n h = elim (Bool-cases (is_valid_key key)) [
  | inl a ↦ close_stored-Closes v now want r (stored_version v key) e x n (rw a at h)
  | inr a ↦ let h' = (rw a at h) in ground (arith, h')
]
