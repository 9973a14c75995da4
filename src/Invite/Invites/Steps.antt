-- ===== src/Invite/Invites/Steps.antt =====
-- Every write to the tables of invite-svc is a change in the sense of Invites/Changes.antt.
use colab.Prelude.{
  false, ℕ, true, Bool-cases, Option-cases, rows-cases, ◌≡◌, refl, ◌⊎◌, inl, inr, Option, none,
  some, List, [], ◌∷◌, ◌==◌, find, find-update_where, select, scalar_one_or_none, if◌then◌else◌,
  arith,
}
use colab.Prelude.Uuid.{Uuid}
use colab.Invite.Invites.{
  responded, respond, is_mirror, find_invite, open_invite, recipient, accepted_with, accept_invite,
  answer_open,
}
use colab.Invite.Invites.Changes.{
  is_accepted_as, HasAccepted, IsBacked, Rewrite, kept, answered, Change, UniqueIds, found_pending,
  any-found, any-selected, find-own,
}
use colab.Invite.Invites.Sending.{create_block, remove_block}
use colab.Invite.Invites.Rows.{
  BlockReason, InviteStatus, accepted, CollabInvite, InviteDb, Event, is_pending, ok, raises,
  HttpError, not_found, forbidden, conflict, is_block,
}

-- An event that is not a match needs nothing behind it.
abbrev IsPlain : Event → Type 0
IsPlain e = (invites : List CollabInvite) → IsBacked invites e

pub same : (db : InviteDb) → Change db db
same db = record { rows = kept refl; events = []; published = refl; backed = tt }

open-cases :
    (side : CollabInvite → Uuid) (caller : Uuid) (o : Option CollabInvite)
    → ((e : HttpError) × (open_invite side caller o ≡ raises e))
      ⊎ ((i : CollabInvite) × (o ≡ some i)
          × (is_pending i.status ≡ true)
          × (open_invite side caller o ≡ ok i))
open-cases side caller none = inl (not_found, refl)
open-cases side caller (some i) = elim (Bool-cases (side i == caller)) [
  | inl mine ↦ elim (Bool-cases (is_pending i.status)) [
    | inl p ↦ inr (i, refl, p, rw (mine, p) refl)
    | inr n ↦ inl (conflict i.status, rw (mine, n) refl)
  ]
  | inr other ↦ inl (forbidden, rw other refl)
]

pub answered_rows :
    (db : InviteDb) (s : InviteStatus) (id : Uuid) (now : ℕ) {i : CollabInvite}
    → is_pending s ≡ false
    → UniqueIds db.invites
    → find_invite id db.invites ≡ some i
    → is_pending i.status ≡ true
    → Rewrite db.invites (respond s i.id now db.invites)
answered_rows db s id now {i} w u e p =
    answered (λ x. x.id == i.id) s now w
      (found_pending i.id db.invites u (find-own id db.invites e) p) refl

own_accepted :
    (i : CollabInvite) (now : ℕ)
    → is_accepted_as i.id i.from_profile_id i.to_profile_id
        (if i.id == i.id then responded accepted now i else i)
      ≡ true
own_accepted i now = ground arith

-- The accepted row is there.
answered_accepted :
    (id : Uuid) (now : ℕ) (xs : List CollabInvite) {i : CollabInvite}
    → find_invite id xs ≡ some i
    → HasAccepted i.id i.from_profile_id i.to_profile_id (respond accepted i.id now xs)
answered_accepted id now xs {i} e =
    any-found (is_accepted_as i.id i.from_profile_id i.to_profile_id) (λ x. x.id == i.id)
      (respond accepted i.id now xs)
      (find-update_where (λ x. x.id == i.id) (λ x. x.id == i.id) (responded accepted now) xs
        (λ x. refl) (find-own id xs e))
      (own_accepted i now)

mirror_accepted :
    (i m : CollabInvite)
    → is_mirror i m ≡ true
    → is_accepted_as m.id i.to_profile_id i.from_profile_id m ≡ true
mirror_accepted i m h = ground (arith, h)

accepted-Change :
    (i : CollabInvite) (id : Uuid) (now : ℕ) (db : InviteDb)
    → UniqueIds db.invites
    → find_invite id db.invites ≡ some i
    → is_pending i.status ≡ true
    → Change db
        (accepted_with i now db
          (scalar_one_or_none (select (is_mirror i) (respond accepted i.id now db.invites)))).1
accepted-Change i id now db u e p =
    let after = respond accepted i.id now db.invites in
    let rows = answered_rows db accepted id now refl u e p in
    elim (rows-cases (select (is_mirror i) after)) [
      | inl none_found ↦
          rw none_found
            (record { rows = rows; events = _ ∷ []; published = refl; backed = (tt, tt) })
      | inr (inl (m, one)) ↦ rw one (record {
        rows = rows;
        events = _ ∷ _ ∷ [];
        published = refl;
        backed = (
          (
            answered_accepted id now db.invites e,
            any-selected (is_accepted_as m.id i.to_profile_id i.from_profile_id) (is_mirror i) after
                one (mirror_accepted i m),
          ),
          (tt, tt),
        );
      })
      | inr (inr (m, n, ms, more)) ↦ rw more (same db)
    ]

pub accept-Change :
    (id caller : Uuid) (now : ℕ) (db : InviteDb)
    → UniqueIds db.invites
    → Change db (accept_invite id caller now db).1
unfolding accept_invite
accept-Change id caller now db u = elim (open-cases recipient caller (find_invite id db.invites)) [
  | inl (e, refused) ↦ rw refused (same db)
  | inr (i, found, p, opened) ↦ rw opened (accepted-Change i id now db u found p)
]

pub answer-Change :
    (side : CollabInvite → Uuid) (s : InviteStatus) (event : Uuid → Uuid → Uuid → Event)
    (id caller : Uuid) (now : ℕ) (db : InviteDb)
    → is_pending s ≡ false
    → ((a b c : Uuid) → IsPlain (event a b c))
    → UniqueIds db.invites
    → Change db (answer_open s event now db (open_invite side caller (find_invite id db.invites))).1
answer-Change side s event id caller now db w plain u =
    elim (open-cases side caller (find_invite id db.invites)) [
      | inl (e, refused) ↦ rw refused (same db)
      | inr (i, found, p, opened) ↦ rw opened (record {
        rows = answered_rows db s id now w u found p;
        events = _ ∷ [];
        published = refl;
        backed = (plain _ _ _ _, tt);
      })
    ]

pub block-Change :
    (caller profile : Uuid) (reason : Option BlockReason) (now : ℕ) (db : InviteDb)
    → Change db (create_block caller profile reason now db).1
unfolding create_block
block-Change caller profile reason now db = elim (Bool-cases (caller == profile)) [
  | inl self ↦ rw self (same db)
  | inr other ↦ elim (Option-cases (find (is_block caller profile) db.blocks)) [
    | inl new ↦
        rw (other, new)
          (record { rows = kept refl; events = _ ∷ []; published = refl; backed = (tt, tt) })
    | inr (b, old) ↦ rw (other, old) (same db)
  ]
]

pub unblock-Change :
    (caller profile : Uuid) (db : InviteDb) → Change db (remove_block caller profile db).1
unfolding remove_block
unblock-Change caller profile db = elim (Option-cases (find (is_block caller profile) db.blocks)) [
  | inl gone ↦ rw (gone, remove_block) (same db)
  | inr (b, old) ↦
      rw (old, remove_block)
        (record { rows = kept refl; events = _ ∷ []; published = refl; backed = (tt, tt) })
]
