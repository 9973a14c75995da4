-- ===== src/Meeting/Tests.antt =====
-- Runs of the meeting endpoints.
use colab.Prelude.{
  ◌==◌, String, Bool, Option, not, length, if◌then◌else◌, ◌≤◌, true, false, none, some, List, [],
  ◌∷◌, ◌≡◌, ◌≢◌, refl, ◌&&◌, any, ltb, arith,
}
use colab.Prelude.Uuid.{Uuid}
use colab.Meeting.Rows.{Meeting, Post, MeetingDb, scheduled, requested, find_meeting}
use colab.Meeting.Schedule.{
  MeetingCreateRequest, MeetingPatchRequest, CreateCall, PatchCall, create_meeting, patch_meeting,
  cancel_at, is_cancelled,
}
use colab.Meeting.Schedule.Overlap.{NoOverlap, over_at, create_meeting-NoOverlap}
use colab.Meeting.Recall.{answered, no_answer, create_bot}
use colab.Meeting.Bot.{Delivery, posted, active_count, dispatch_recall_bot, give_bot_consent}
use colab.Meeting.Bot.Ops.{Op, create, consent, dispatch, apply, run}
use colab.Meeting.Bot.Frames.{all_count}
use colab.Meeting.Bot.Consent.{no_meetings, dispatch-consented, dispatch-cancelled}

abbrev map_made : List Post → List (Option String)
map_made [] = []
map_made (p ∷ posts) = p.made ∷ map_made posts

-- Two meetings of one collaboration that are not cancelled and share some time.
abbrev share_time : Meeting → Meeting → Bool
share_time m n =
    m.collab_id == n.collab_id
    && not (is_cancelled m.status)
    && not (is_cancelled n.status)
    && ltb m.scheduled_at (over_at n)
    && ltb n.scheduled_at (over_at m)

abbrev request : MeetingCreateRequest
request = record { scheduled_at = 1_000_000; duration_min = 60; bot_enabled = true }

abbrev call : Uuid → CreateCall
call id = record {
  now = 0;
  fresh = id;
  gcal_request = 90;
  calendar = some ("event", "https://meet");
  ics = none;
}

-- A first request that times out though it made a bot, and a second that is answered.
abbrev timed_out : Bool → Delivery
timed_out commits = record {
  recall = λ i.
      if i == 0
      then record { response = no_answer; made = some "ghost" }
      else record { response = answered "bot"; made = some "bot" };
  commits = commits;
}

-- A meeting, two consents and three deliveries of the bot task, the first of which does not come to its commit.
abbrev asked : List Op
asked = create 5 1 request (call 10) ∷ consent 10 1 100 ∷ consent 10 2 200 ∷ []

abbrev delivered : List Op
delivered =
    create 5 1 request (call 10)
    ∷ consent 10 1 100
    ∷ consent 10 2 200
    ∷ dispatch 10 (timed_out false)
    ∷ dispatch 10 (timed_out true)
    ∷ dispatch 10 (timed_out true)
    ∷ []

-- Four bots for one meeting.
delivered_bots :
    map_made (run delivered no_meetings).posts
    ≡ some "ghost" ∷ some "bot" ∷ some "ghost" ∷ some "bot" ∷ []
unfolding run apply create_meeting give_bot_consent dispatch_recall_bot create_bot
delivered_bots = refl

asked_posts :
    all_count 10 (dispatch_recall_bot 10 (timed_out true) (run asked no_meetings)).posts
    ≢ all_count 10 (run asked no_meetings).posts
unfolding run apply create_meeting give_bot_consent dispatch_recall_bot create_bot
asked_posts = λ e. absurd (omega (arith, e))

dispatch-consented_example : 2 ≤ active_count 10 (run asked no_meetings).consents
dispatch-consented_example = dispatch-consented asked 10 (timed_out true) asked_posts

abbrev meeting : Meeting
meeting = record {
  id = 10;
  collab_id = 5;
  organizer_profile_id = 1;
  scheduled_at = 1_000_000;
  duration_min = 60;
  join_url = "https://meet";
  ics_s3_key = none;
  gcal_event_id = some "event";
  gcal_request_id = 90;
  status = scheduled;
  bot_enabled = true;
  bot_status = requested;
  recall_bot_id = none;
  cancelled_at = none;
  created_at = 0;
}

abbrev one_meeting : MeetingDb
one_meeting = record {
  meetings = meeting ∷ [];
  consents = [];
  artifacts = [];
  emitted = [];
  posts = [];
}

abbrev cancel : MeetingPatchRequest
cancel = record { scheduled_at = none; duration_min = none; cancel = true }

abbrev at_noon : PatchCall
at_noon = record { now = 500; calendar_ok = true; ics = none }

dispatch-cancelled_example :
    (find_meeting 10 (patch_meeting 10 1 cancel at_noon one_meeting).1.meetings
      ≡ some (cancel_at 500 meeting))
    × ((dispatch_recall_bot 10
          (timed_out true)
          (patch_meeting 10 1 cancel at_noon one_meeting).1).posts
        ≡ posted 10 true (create_bot (timed_out true).recall).0 [])
    × (1 ≤ length (create_bot (timed_out true).recall).0)
dispatch-cancelled_example =
    dispatch-cancelled one_meeting 10 1 cancel at_noon (timed_out true) {m = meeting} refl refl refl
      refl refl

create_meeting-NoOverlap_example :
    NoOverlap (create_meeting 5 2 request (call 11) one_meeting).1.meetings
create_meeting-NoOverlap_example =
    create_meeting-NoOverlap 5 2 request (call 11) one_meeting (tt, tt)

-- A meeting that starts where the first ends, and its move to the time of the first.
abbrev second_request : MeetingCreateRequest
second_request = record { scheduled_at = 3_601_000_000; duration_min = 60; bot_enabled = false }

abbrev move : MeetingPatchRequest
move = record { scheduled_at = some 1_000_000; duration_min = none; cancel = false }

abbrev two_meetings : MeetingDb
two_meetings = (create_meeting 5 2 second_request (call 11) one_meeting).1

moved :
    any
      (λ m.
        any
          (λ n. ltb n.id m.id && share_time m n)
          (patch_meeting 11 2 move at_noon two_meetings).1.meetings)
      (patch_meeting 11 2 move at_noon two_meetings).1.meetings
    ≡ true
unfolding create_meeting patch_meeting
moved = refl
