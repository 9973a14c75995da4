-- ===== src/Invite/Invites/Expiry.antt =====
-- services/invite-svc/app/workers/ttl_tasks.py: pending invites past their time expire, in batches of
-- 500. Rows that another transaction has locked are skipped.
pub mod Ends
use colab.Prelude.{
  ℕ, zero, suc, ◌+◌, Bool, true, false, not, ◌&&◌, Option, none, some, List, [], ◌∷◌, ◌++◌, ◌==◌,
  ltb, leb, any, map, length, select, update_where, if◌then◌else◌,
}
use colab.Prelude.Uuid.{Uuid}
use colab.Invite.Invites.{responded}
use colab.Invite.Invites.Rows.{expired, CollabInvite, InviteDb, Event, invite_expired, is_pending}

abbrev pub batch_size : ℕ
batch_size = 500

-- `LIMIT n`
abbrev pub limit {ℓ} : {A : Type ℓ} → ℕ → List A → List A
limit zero xs = []
limit (suc n) [] = []
limit (suc n) (x ∷ xs) = x ∷ limit n xs

abbrev pub is_stale : (Uuid → Bool) → ℕ → CollabInvite → Bool
is_stale locked now i = is_pending i.status && leb i.archive_at now && not (locked i.id)

abbrev pub mem_id : List Uuid → Uuid → Bool
mem_id ids id = any (λ k. k == id) ids

abbrev pub expired_event : CollabInvite → Event
expired_event i = invite_expired i.id i.from_profile_id i.to_profile_id

abbrev pub expire_rows : ℕ → List CollabInvite → InviteDb → ℕ × InviteDb
expire_rows now rows db = (
  length rows,
  record db {
    invites =
        update_where (λ i. mem_id (map (λ r. r.id) rows) i.id) (responded expired now) db.invites;
    published = map expired_event rows ++ db.published;
  },
)

-- `_expire_batch`: how many rows it expired. With no row it changes nothing, as the update does.
unfoldable pub expire_batch : (Uuid → Bool) → ℕ → InviteDb → ℕ × InviteDb
expire_batch locked now db =
    expire_rows now (limit batch_size (select (is_stale locked now) db.invites)) db

-- `_run_expire_all`: `clock k` is the time that the k-th batch reads, and `none` means that the fuel
-- ran out. The result is the total and the time of the last batch.
unfoldable pub run_expire_all :
    (Uuid → Bool) → (ℕ → ℕ) → ℕ → ℕ → ℕ → InviteDb → Option ((ℕ × ℕ) × InviteDb)
unfolding expire_batch
run_expire_all locked clock zero k total db = none
run_expire_all locked clock (suc fuel) k total db =
    let (count, after) = expire_batch locked (clock k) db in
    let rest = run_expire_all locked clock fuel (suc k) (total + count) after in
    if ltb count batch_size then some ((total + count, clock k), after) else rest
