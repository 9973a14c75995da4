-- ===== src/Invite/Invites/Lists/Pages.antt =====
-- The inbox and the sent invites, page by page.
use colab.Prelude.{
  ℕ, ◌≤◌, ◌<◌, Bool, ◌&&◌, Bool-cases, ◌≡◌, inl, inr, Option, none, some, List, [], ◌∷◌, String,
  length, select, arith,
}
use colab.Prelude.Uuid.{Uuid}
use colab.Invite.Paging.{Cursors, order_desc, page, follow}
use colab.Invite.Paging.Order.{HasUniqueIds, IsNewId}
use colab.Invite.Paging.Complete.{follow-eq-order, length-order}
use colab.Invite.Invites.Rows.{InviteStatus, pending, CollabInvite, InviteDb, Answer, ok, raises}
use colab.Invite.Invites.Lists.{
  invite_key, status_filter, Listing, in_inbox, in_sent, listed, has_status, get_inbox, get_sent,
}

module _ {A : Type 0} (key : A → ℕ × Uuid) (p : A → Bool) where
  select-IsNewId : (x : A) (ys : List A) → IsNewId key x ys → IsNewId key x (select p ys)
  select-IsNewId x [] n = tt
  select-IsNewId x (y ∷ ys) n = elim (Bool-cases (p y)) [
    | inl in_ ↦ rw in_ (n.0, select-IsNewId x ys n.1)
    | inr out ↦ rw out (select-IsNewId x ys n.1)
  ]

  select-HasUniqueIds : (xs : List A) → HasUniqueIds key xs → HasUniqueIds key (select p xs)
  select-HasUniqueIds [] u = tt
  select-HasUniqueIds (x ∷ xs) u = elim (Bool-cases (p x)) [
    | inl in_ ↦ rw in_ (select-IsNewId x xs u.0, select-HasUniqueIds xs u.1)
    | inr out ↦ rw out (select-HasUniqueIds xs u.1)
  ]

  length-select : (xs : List A) → length (select p xs) ≤ length xs
  length-select [] = omega arith
  length-select (x ∷ xs) = ground (arith, length-select xs)

-- What a client takes from an answer.
abbrev pub taken : {C : Type 0} → Answer (Listing C) → List CollabInvite × Option C
taken (raises e) = ([], none)
taken (ok l) = (l.items, l.next_cursor)

-- Over invites with distinct ids: a client that follows the cursors of the inbox, or of the sent invites,
-- reads every visible invite of the status asked for exactly once, in the order of the listing, the
-- newest first; as many pages as there are invites are enough.
pub listings_complete :
    {C : Type 0} (cs : Cursors C) (caller : Uuid) (status : Option String) (size fuel : ℕ)
    (db : InviteDb) {received sent : Option InviteStatus}
    → HasUniqueIds invite_key db.invites
    → 0 < size
    → length db.invites ≤ fuel
    → status_filter (some pending) status ≡ ok received
    → status_filter none status ≡ ok sent
    → follow invite_key (λ c. taken (get_inbox cs caller status c size db)) fuel none
        ≡ order_desc invite_key (listed (in_inbox caller db) received db.invites)
      × follow invite_key (λ c. taken (get_sent cs caller status c size db)) fuel none
        ≡ order_desc invite_key (listed (in_sent caller db) sent db.invites)
unfolding get_inbox get_sent
listings_complete cs caller status size fuel db {received} {sent} u h l e f = (
  rw e (whole (λ i. in_inbox caller db i && has_status received i)),
  rw f (whole (λ i. in_sent caller db i && has_status sent i)),
)
  where
    whole :
        (p : CollabInvite → Bool)
        → follow invite_key (λ c. page invite_key cs size c (select p db.invites)) fuel none
          ≡ order_desc invite_key (select p db.invites)
    whole p =
        follow-eq-order invite_key cs size fuel (select p db.invites)
          (select-HasUniqueIds invite_key p db.invites u) h
          (omega (
            arith,
            length-order invite_key (select p db.invites),
            length-select invite_key p db.invites,
            l,
          ))
