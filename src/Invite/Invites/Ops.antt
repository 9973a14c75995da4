-- ===== src/Invite/Invites/Ops.antt =====
-- Everything that writes the tables of invite-svc, as one step each.
use colab.Prelude.{ℕ, Bool, Option, List, [], ◌∷◌}
use colab.Prelude.Uuid.{Uuid}
use colab.Invite.Quota.{SortedSets}
use colab.Invite.Invites.{accept_invite, reject_invite, cancel_invite}
use colab.Invite.Invites.Rows.{BlockReason, InviteDb}
use colab.Invite.Invites.Sending.{
  InviteSettings, SendRequest, Call, InviteState, send_invite, create_block, remove_block,
}
use colab.Invite.Invites.Expiry.{expire_batch}

pub data Op : Type 0 where
  send : SendRequest → Call → Op
  accept reject cancel : Uuid → Uuid → ℕ → Op
  block : Uuid → Uuid → Option BlockReason → ℕ → Op
  unblock : Uuid → Uuid → Op
  expire : (Uuid → Bool) → ℕ → Op

module _ {Z : Type 0} (redis : SortedSets Z) (settings : InviteSettings) where
  abbrev on_db : InviteDb → InviteState redis → InviteState redis
  on_db db st = record st { db = db }

  unfoldable pub apply : Op → InviteState redis → InviteState redis
  apply (send body call) st = (send_invite redis settings body call st).1
  apply (accept id caller now) st = on_db (accept_invite id caller now st.db).1 st
  apply (reject id caller now) st = on_db (reject_invite id caller now st.db).1 st
  apply (cancel id caller now) st = on_db (cancel_invite id caller now st.db).1 st
  apply (block caller profile reason now) st =
      on_db (create_block caller profile reason now st.db).1 st
  apply (unblock caller profile) st = on_db (remove_block caller profile st.db).1 st
  apply (expire locked now) st = on_db (expire_batch locked now st.db).1 st

  unfoldable pub run : List Op → InviteState redis → InviteState redis
  run [] st = st
  run (op ∷ ops) st = run ops (apply op st)
