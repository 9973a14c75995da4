-- ===== src/Meeting/Bot/Ops.antt =====
-- Everything that writes the tables of meeting-svc, as one step each; a task may be delivered at any time.
use colab.Prelude.{ℕ, String, none, some, List, [], ◌∷◌}
use colab.Prelude.Uuid.{Uuid}
use colab.Meeting.Rows.{MeetingDb}
use colab.Meeting.Schedule.{
  MeetingCreateRequest, MeetingPatchRequest, CreateCall, PatchCall, create_meeting, patch_meeting,
}
use colab.Meeting.Bot.{
  RecallPayload, Delivery, give_bot_consent, revoke_bot_consent, start_bot, dispatch_recall_bot,
  process_recall_webhook,
}

pub data Op : Type 0 where
  create : Uuid → Uuid → MeetingCreateRequest → CreateCall → Op
  patch : Uuid → Uuid → MeetingPatchRequest → PatchCall → Op
  consent revoke : Uuid → Uuid → ℕ → Op
  start : Uuid → Op
  dispatch : Uuid → Delivery → Op
  webhook : String → RecallPayload → Op

unfoldable pub apply : Op → MeetingDb → MeetingDb
apply (create collab profile body call) db = (create_meeting collab profile body call db).1
apply (patch id profile body call) db = (patch_meeting id profile body call db).1
apply (consent id profile now) db = (give_bot_consent id profile now db).1
apply (revoke id profile now) db = (revoke_bot_consent id profile now db).1
apply (start id) db = (start_bot id db).1
apply (dispatch id delivery) db = dispatch_recall_bot id delivery db
apply (webhook bot p) db = elim (process_recall_webhook bot p db) [ none ↦ db | some after ↦ after ]

unfoldable pub run : List Op → MeetingDb → MeetingDb
run [] db = db
run (op ∷ ops) db = run ops (apply op db)
