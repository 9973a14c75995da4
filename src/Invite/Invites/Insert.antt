-- ===== src/Invite/Invites/Insert.antt =====
-- Sending an invite is a change in the sense of Invites/Changes.antt.
use colab.Prelude.{
  ℕ, ◌/◌, ltb, Bool, true, false, ◌||◌, Bool-cases, Option-cases, ◌≡◌, refl, sym, inl, inr, Option,
  none, some, List, [], ◌∷◌, ◌==◌, any, find, length as text_length, if◌then◌else◌, arith, String,
}
use colab.Prelude.Uuid.{Uuid}
use colab.Invite.Quota.{SortedSets, UserKeys, check_and_increment_quota}
use colab.Invite.Invites.Changes.{Rewrite, added, Change}
use colab.Invite.Invites.Sending.{
  InviteSettings, SendRequest, Call, InviteState, send_invite, check_idempotency, idem_key,
  scan_synopsis, new_invite, SendResponse, inserted, scanned, counted, unless_cached, with_quota,
}
use colab.Invite.Invites.Rows.{
  is_pending, CollabInvite, has_key, Answer, ok, raises, insert_invite, is_blocked,
}
use colab.Invite.Invites.Steps.{same}

-- A row that the table takes has a new id.
any-left :
    (id : Uuid) (key : Option String) (xs : List CollabInvite)
    → any (λ x. x.id == id || has_key key x) xs ≡ false
    → any (λ x. x.id == id) xs ≡ false
any-left id key [] h = refl
any-left id key (x ∷ xs) h = ground (arith, h, any-left id key xs)

guarded {ℓ} :
    {A : Type ℓ} (a b c : Bool) {x y : A}
    → (if a || b || c then none else some x) ≡ some y
    → (a ≡ false) × (y ≡ x)
guarded a b c e = ground arith

insert_new :
    (i : CollabInvite) (xs : List CollabInvite) {ys : List CollabInvite}
    → is_pending i.status ≡ true
    → insert_invite i xs ≡ some ys
    → Rewrite xs ys
unfolding insert_invite
insert_new i xs {ys} w e =
    let (free, grown) =
      guarded (any (λ x. x.id == i.id || has_key i.idempotency_key x) xs)
        (ltb 250 (text_length i.synopsis)) (i.from_profile_id == i.to_profile_id) e in
    added i w (any-left i.id i.idempotency_key xs free) grown

module _ {Z : Type 0} (redis : SortedSets Z) (settings : InviteSettings) (body : SendRequest)
    (call : Call) where
  inserted-Change :
      (left : ℕ) (case_id : Option Uuid) (st : InviteState redis) (o : Option (List CollabInvite))
      → o ≡ insert_invite (new_invite settings body call case_id) st.db.invites
      → Change st.db (inserted redis settings body call left case_id st o).1.db
  inserted-Change left case_id st none e =
      elim (Option-cases (find (has_key (some (idem_key settings body))) st.db.invites)) [
        | inl new ↦ rw (new, inserted) (same st.db)
        | inr (i, old) ↦ rw (old, inserted) (same st.db)
      ]
  inserted-Change left case_id st (some xs) e = record {
    rows = insert_new (new_invite settings body call case_id) st.db.invites refl (sym e);
    events = _ ∷ [];
    published = refl;
    backed = (tt, tt);
  }

  scanned-Change :
      (left : ℕ) (st : InviteState redis) (a : Answer (Option Uuid))
      → Change st.db (scanned redis settings body call left st a).1.db
  scanned-Change left st (raises e) = same st.db
  scanned-Change left st (ok case_id) =
      inserted-Change left case_id st
        (insert_invite (new_invite settings body call case_id) st.db.invites) refl

  counted-Change :
      (st : InviteState redis) (r : (Bool × ℕ) × UserKeys redis)
      → Change st.db (counted redis settings body call st r).1.db
  counted-Change st ((false, left), keys) = same st.db
  counted-Change st ((true, left), keys) =
      scanned-Change left (with_quota redis body.from_profile_id keys st)
        (scan_synopsis settings.synopsis_flag_threshold call.scan)

  unless_cached-Change :
      (st : InviteState redis) (o : Option SendResponse)
      → Change st.db (unless_cached redis settings body call st o).1.db
  unless_cached-Change st (some r) = same st.db
  unless_cached-Change st none = counted-Change st (
      check_and_increment_quota redis (call.now / 1000) settings.free_invite_quota_per_week
        call.entitlement call.fresh (st.quotas body.from_profile_id))

  pub send-Change :
      (st : InviteState redis) → Change st.db (send_invite redis settings body call st).1.db
  unfolding send_invite
  send-Change st = elim (Bool-cases (body.from_profile_id == body.to_profile_id)) [
    | inl self ↦ rw self (same st.db)
    | inr other ↦
        elim (Bool-cases (is_blocked body.from_profile_id body.to_profile_id st.db.blocks)) [
          | inl shut ↦ rw (other, shut) (same st.db)
          | inr free ↦
              rw (other, free)
                (unless_cached-Change st
                  (check_idempotency call.now (idem_key settings body) st.cache))
        ]
  ]
