-- ===== src/Invite/Invites/StateMachine.antt =====
-- The invites, seen as a state machine: the status that stands under each id.
use colab.Prelude.{
  ℕ, Bool, true, false, Bool-cases, Option-cases, ◌≡◌, refl, subst, inl, inr, Option, none, some,
  List, [], ◌∷◌, ◌==◌, any, find-update_where, update_where, All-find, if◌then◌else◌, arith,
}
use colab.Prelude.Uuid.{Uuid}
use colab.Invite.Quota.{SortedSets}
use colab.Invite.Invites.{find_invite, responded}
use colab.Invite.Invites.Rows.{InviteStatus, pending, CollabInvite, is_pending}
use colab.Invite.Invites.Sending.{InviteSettings, InviteState}
use colab.Invite.Invites.Ops.{Op, apply, run}
use colab.Invite.Invites.Changes.{Rewrite, kept, added, answered, same_id}
use colab.Invite.Invites.Settled.{IsSound, apply-Change, run-IsSound}

abbrev pub status_in : Option CollabInvite → Option InviteStatus
status_in none = none
status_in (some i) = some i.status

abbrev pub status_of : Uuid → List CollabInvite → Option InviteStatus
status_of id invites = status_in (find_invite id invites)

-- The docstring of `CollabInvite`: pending → accepted | rejected | expired | cancelled. A row is never deleted.
pub data StatusStep : Option InviteStatus → Option InviteStatus → Type 0 where
  stays : {o : Option InviteStatus} → StatusStep o o
  created : StatusStep none (some pending)
  settled : {s : InviteStatus} → is_pending s ≡ false → StatusStep (some pending) (some s)

waiting : (s : InviteStatus) → is_pending s ≡ true → s ≡ pending
waiting s h = ground arith

no_find :
    (id : Uuid) (xs : List CollabInvite)
    → any (λ x. x.id == id) xs ≡ false
    → find_invite id xs ≡ none
no_find id [] h = refl
no_find id (x ∷ xs) h = ground (arith, h, no_find id xs)

no_update :
    (id : Uuid) (p : CollabInvite → Bool) (f : CollabInvite → CollabInvite) (xs : List CollabInvite)
    → ((x : CollabInvite) → (f x).id ≡ x.id)
    → find_invite id xs ≡ none
    → find_invite id (update_where p f xs) ≡ none
no_update id p f [] keep h = refl
no_update id p f (x ∷ xs) keep h = ground (arith, keep x, h, no_update id p f xs keep)

Rewrite-StatusStep :
    (id : Uuid) {old new : List CollabInvite}
    → Rewrite old new
    → StatusStep (status_of id old) (status_of id new)
Rewrite-StatusStep id (kept e) = rw e stays
Rewrite-StatusStep id {old} (added i w n e) = elim (Bool-cases (i.id == id)) [
  | inr other ↦ rw e (rw other stays)
  | inl mine ↦
      let missing =
        no_find id old (subst (λ k. any (λ x. x.id == k) old ≡ false) (same_id id i mine) n) in
      rw e (rw (missing, mine, waiting i.status w) created)
]
Rewrite-StatusStep id {old} (answered p s now w o e) = elim (Option-cases (find_invite id old)) [
  | inl missing ↦
      rw e (rw (missing, no_update id p (responded s now) old (λ x. refl) missing) stays)
  | inr (x, found) ↦
      let later =
        find-update_where (λ y. y.id == id) p (responded s now) old {x = x} (λ y. refl) found in
      let (on, _) =
        All-find (λ y. p y ≡ true → is_pending y.status ≡ true) (λ y. y.id == id) old o found in
      rw (e, found, later) (answered_one p s now w x on (p x) refl)
]
  where
    answered_one :
        (p : CollabInvite → Bool) (s : InviteStatus) (now : ℕ)
        → is_pending s ≡ false
        → (x : CollabInvite) → (p x ≡ true → is_pending x.status ≡ true)
        → (b : Bool) → p x ≡ b
        → StatusStep (some x.status) (status_in (some (if b then responded s now x else x)))
    answered_one p s now w x on true h = rw (waiting x.status (on h)) (settled w)
    answered_one p s now w x on false h = stays

module _ {Z : Type 0} (redis : SortedSets Z) (settings : InviteSettings) where
  -- From tables in which ids are unique and every published match is backed, and after any sequence of sends,
  -- answers, blocks and expiry batches, each further write moves the status under an id by at most one step of the
  -- state machine: an id without a row gets a pending one, a pending invite gets a final status, or nothing changes.
  pub apply-StatusStep :
      (id : Uuid) (ops : List Op) (op : Op) (st : InviteState redis)
      → IsSound redis settings st.db
      → let before = run redis settings ops st in
        StatusStep
          (status_of id before.db.invites)
          (status_of id (apply redis settings op before).db.invites)
  apply-StatusStep id ops op st s =
      let before = run redis settings ops st in
      Rewrite-StatusStep id
        (apply-Change redis settings op before (run-IsSound redis settings ops st s).0).rows
