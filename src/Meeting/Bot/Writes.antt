-- ===== src/Meeting/Bot/Writes.antt =====
-- Consents, tasks and webhooks keep the bot's invariant.
use colab.Prelude.{
  ℕ, ◌+◌, ◌≤◌, length, String, Bool, true, false, not, ◌&&◌, ◌||◌, Bool-cases, Option-cases,
  rows-cases, ◌≡◌, refl, sym, subst, inl, inr, Option, none, some, List, [], ◌∷◌, ◌==◌, ltb, leb,
  any, select, update_where, arith,
}
use colab.Prelude.Uuid.{Uuid}
use colab.Meeting.Rows.{
  BotStatus, no_bot, requested, joining, joined, left, failed, ended, Meeting, MeetingBotConsent,
  Post, MeetingDb, find_meeting, is_over,
}
use colab.Meeting.Recall.{Attempt, create_bot, length-create_bot}
use colab.Meeting.Bot.{
  Delivery, posted, settled, RecallPayload, RecallCode, joining_call, in_call_recording, call_ended,
  done, fatal, unknown, active_count, upsert_consent, set_bot, consent_open, give_bot_consent,
  revoke_open, revoke_bot_consent, start_bot, dispatch_open, dispatch_recall_bot, webhook_for,
  process_recall_webhook, is_active_for, is_undispatched, is_none, is_requested, has_bot,
}
use colab.Meeting.Bot.Ops.{Op, create, patch, consent, revoke, start, dispatch, webhook, apply}
use colab.Meeting.Bot.Frames.{
  post_count, IsGoodStatus, IsGoodMeeting, IsGood, find-own, more_active, other_active,
  other_revoked, update-IsGood, mapped-IsGood, at_most_three,
}
use colab.Meeting.Bot.Kept.{
  create-IsGood, patch-IsGood, set-IsGood, at_found, none_zero, any_good, more-IsGoodMeeting,
  same_id,
}

two_then :
    (s : BotStatus) (a b before : ℕ)
    → leb 2 a && is_none s ≡ true
    → IsGoodStatus s before b
    → (2 ≤ a) × (b ≡ 0)
two_then no_bot a b before h g = (ground (arith, h), g)
two_then requested a b before h g = absurd (ground (arith, h))
two_then joining a b before h g = absurd (ground (arith, h))
two_then joined a b before h g = absurd (ground (arith, h))
two_then left a b before h g = absurd (ground (arith, h))
two_then failed a b before h g = absurd (ground (arith, h))

module _ (id mid : Uuid) (commits : Bool) (posts : List Post) where
  other_posts :
      (sent : List Attempt)
      → id == mid ≡ false
      → post_count id (posted mid commits sent posts) ≡ post_count id posts
  other_posts [] h = refl
  other_posts (a ∷ sent) h =
      let off : mid == id ≡ false = ground (arith, h) in rw off (other_posts sent h)

  more_posts :
      (sent : List Attempt)
      → post_count id (posted mid commits sent posts) ≤ post_count id posts + length sent
  more_posts [] = omega arith
  more_posts (a ∷ sent) = ground (arith, more_posts sent)

lost_posts :
    (id mid : Uuid) (posts : List Post) (sent : List Attempt)
    → post_count id (posted mid false sent posts) ≡ post_count id posts
lost_posts id mid posts [] = refl
lost_posts id mid posts (a ∷ sent) = ground (arith, lost_posts id mid posts sent)

three_more : (a b n : ℕ) → b ≤ a + n → a ≡ 0 → n ≤ 3 → b ≤ 3
three_more a b n h z k = omega (arith, h, z, k)

consent_open-IsGood :
    (profile : Uuid) (now : ℕ) (db : MeetingDb) (m : Meeting)
    → find_meeting m.id db.meetings ≡ some m
    → IsGood db
    → IsGood (consent_open profile now db m).1
consent_open-IsGood profile now db m found good =
    let cs = upsert_consent m.id profile now db.consents in
    elim (Bool-cases (leb 2 (active_count m.id cs) && is_none m.bot_status)) [
      | inl second ↦
          rw (second, consent_open)
            (update-IsGood db m (set_bot requested) cs db.posts (λ x. refl) found
              (λ id h. other_active id m.id profile now db.consents h) (λ id _. refl)
              (two_then m.bot_status (active_count m.id cs) (post_count m.id db.posts)
                (active_count m.id db.consents) second (at_found db m found good))
              good)
      | inr first ↦
          rw (first, consent_open)
            (λ id.
              more-IsGoodMeeting (find_meeting id db.meetings) (active_count id db.consents)
                (active_count id cs) (post_count id db.posts)
                (more_active id m.id profile now db.consents) (good id))
    ]

dispatch_open-IsGood :
    (d : Delivery) (db : MeetingDb) (m : Meeting)
    → find_meeting m.id db.meetings ≡ some m
    → m.bot_status ≡ requested
    → IsGood db
    → IsGood (dispatch_open d db m)
dispatch_open-IsGood d db m found r good = elim (Bool-cases d.commits) [
  | inr lost ↦
      rw (lost, dispatch_open)
        (λ id.
          subst (λ b. IsGoodMeeting (find_meeting id db.meetings) (active_count id db.consents) b)
            (sym (lost_posts id m.id db.posts sent)) (good id))
  | inl commits ↦ rw (commits, dispatch_open) (settled-IsGood (create_bot d.recall).1)
]
  where
    sent : List Attempt
    sent = (create_bot d.recall).0

    after : List Post
    after = posted m.id true sent db.posts

    few : post_count m.id after ≤ 3
    few =
        three_more (post_count m.id db.posts) (post_count m.id after) (length sent)
          (more_posts m.id m.id true db.posts sent)
          (none_zero m.bot_status (active_count m.id db.consents) (post_count m.id db.posts)
            (rw r refl) (at_found db m found good))
          (length-create_bot d.recall)

    settled-IsGood : (o : Option String) → IsGood (record (settled o db m) { posts = after })
    settled-IsGood none =
        update-IsGood db m (set_bot failed) db.consents after (λ x. refl) found (λ id _. refl)
          (λ id h. other_posts id m.id true db.posts sent h) few good
    settled-IsGood (some bot) =
        update-IsGood db m (λ x. record x { recall_bot_id = some bot; bot_status = joining })
          db.consents after (λ x. refl) found (λ id _. refl)
          (λ id h. other_posts id m.id true db.posts sent h) few good

revoke_open-IsGood :
    (profile : Uuid) (now : ℕ) (db : MeetingDb) (m : Meeting)
    → find_meeting m.id db.meetings ≡ some m
    → is_undispatched m.bot_status ≡ true
    → IsGood db
    → IsGood (revoke_open profile now db m).1
revoke_open-IsGood profile now db m found waiting good =
    let cs : List MeetingBotConsent =
      update_where (λ c. is_active_for m.id c && c.profile_id == profile)
        (λ c. record c { revoked_at = some now }) db.consents in
    let no_posts =
      none_zero m.bot_status (active_count m.id db.consents) (post_count m.id db.posts) waiting
        (at_found db m found good) in
    elim (Bool-cases (any (λ c. is_active_for m.id c && c.profile_id == profile) db.consents)) [
      | inr no_consent ↦ rw (no_consent, revoke_open) good
      | inl mine ↦ elim (Bool-cases (is_requested m.bot_status)) [
        | inl asked ↦
            rw (mine, asked, revoke_open)
              (update-IsGood db m (set_bot no_bot) cs db.posts (λ x. refl) found
                (λ id h. other_revoked id m.id profile now db.consents h) (λ id _. refl) no_posts
                good)
        | inr idle ↦
            rw (mine, idle, revoke_open)
              (λ id. elim (Bool-cases (id == m.id)) [
                | inl here ↦
                    subst
                      (λ k.
                        IsGoodMeeting (find_meeting k db.meetings) (active_count k cs)
                          (post_count k db.posts))
                      (sym (same_id id m.id here))
                      (rw found (
                        any_good m.bot_status (active_count m.id db.consents) (active_count m.id cs)
                          (post_count m.id db.posts) idle (at_found db m found good)))
                | inr other ↦
                    subst
                      (λ a. IsGoodMeeting (find_meeting id db.meetings) a (post_count id db.posts))
                      (sym (other_revoked id m.id profile now db.consents other)) (good id)
              ])
      ]
    ]

start-IsGood : (id : Uuid) (db : MeetingDb) → IsGood db → IsGood (start_bot id db).1
unfolding start_bot
start-IsGood id db good = elim (Option-cases (find_meeting id db.meetings)) [
  | inl missing ↦ rw (missing, start_bot) good
  | inr (m, found) ↦
      elim (Bool-cases (not m.bot_enabled || ltb (active_count m.id db.consents) 2)) [
        | inl refused ↦ rw (found, refused, start_bot) good
        | inr allowed ↦ elim (Bool-cases (is_undispatched m.bot_status)) [
          | inr sent ↦ rw (found, allowed, sent, start_bot) good
          | inl waiting ↦
              let own = find-own id db.meetings found in
              rw (found, allowed, waiting, start_bot)
                (set-IsGood db m (set_bot requested) (λ x. refl) own
                  (
                    enough m.bot_enabled (active_count m.id db.consents) allowed,
                    none_zero m.bot_status (active_count m.id db.consents)
                        (post_count m.id db.posts) waiting (at_found db m own good),
                  )
                  good)
        ]
      ]
]
  where
    enough : (e : Bool) (a : ℕ) → not e || ltb a 2 ≡ false → 2 ≤ a
    enough e a h = ground (arith, h)

consent-IsGood :
    (id profile : Uuid) (now : ℕ) (db : MeetingDb)
    → IsGood db
    → IsGood (give_bot_consent id profile now db).1
unfolding give_bot_consent
consent-IsGood id profile now db good = elim (Option-cases (find_meeting id db.meetings)) [
  | inl missing ↦ rw (missing, give_bot_consent) good
  | inr (m, found) ↦ elim (Bool-cases (not m.bot_enabled || is_over m.status)) [
    | inl refused ↦ rw (found, refused, give_bot_consent) good
    | inr allowed ↦
        rw (found, allowed, give_bot_consent)
          (consent_open-IsGood profile now db m (find-own id db.meetings found) good)
  ]
]

revoke-IsGood :
    (id profile : Uuid) (now : ℕ) (db : MeetingDb)
    → IsGood db
    → IsGood (revoke_bot_consent id profile now db).1
unfolding revoke_bot_consent
revoke-IsGood id profile now db good = elim (Option-cases (find_meeting id db.meetings)) [
  | inl missing ↦ rw (missing, revoke_bot_consent) good
  | inr (m, found) ↦ elim (Bool-cases (is_undispatched m.bot_status)) [
    | inr sent ↦ rw (found, sent, revoke_bot_consent) good
    | inl waiting ↦
        rw (found, waiting, revoke_bot_consent)
          (revoke_open-IsGood profile now db m (find-own id db.meetings found) waiting good)
  ]
]

pub is_asked : (s : BotStatus) → is_requested s ≡ true → s ≡ requested
is_asked s h = ground arith

dispatch-IsGood :
    (id : Uuid) (d : Delivery) (db : MeetingDb) → IsGood db → IsGood (dispatch_recall_bot id d db)
unfolding dispatch_recall_bot
dispatch-IsGood id d db good = elim (Option-cases (find_meeting id db.meetings)) [
  | inl missing ↦ rw (missing, dispatch_recall_bot) good
  | inr (m, found) ↦ elim (Bool-cases (is_requested m.bot_status)) [
    | inr idle ↦ rw (found, idle, dispatch_recall_bot) good
    | inl asked ↦
        rw (found, asked, dispatch_recall_bot)
          (dispatch_open-IsGood d db m (find-own id db.meetings found) (is_asked m.bot_status asked)
            good)
  ]
]

webhook_for-IsGood :
    (p : RecallPayload) (code : RecallCode) (db : MeetingDb) (m : Meeting)
    → IsGood db
    → IsGood (webhook_for p code db m)
webhook_for-IsGood p joining_call db m good =
    mapped-IsGood db m.id (set_bot joining) (λ x. refl)
      (λ x a b h. at_most_three x.bot_status a b h) good
webhook_for-IsGood p in_call_recording db m good =
    mapped-IsGood db m.id (set_bot joined) (λ x. refl) (λ x a b h. at_most_three x.bot_status a b h)
      good
webhook_for-IsGood p call_ended db m good =
    mapped-IsGood db m.id (set_bot left) (λ x. refl) (λ x a b h. at_most_three x.bot_status a b h)
      good
webhook_for-IsGood p done db m good =
    mapped-IsGood db m.id (λ r. record r { status = ended; bot_status = left }) (λ x. refl)
      (λ x a b h. at_most_three x.bot_status a b h) good
webhook_for-IsGood p fatal db m good =
    mapped-IsGood db m.id (set_bot failed) (λ x. refl) (λ x a b h. at_most_three x.bot_status a b h)
      good
webhook_for-IsGood p unknown db m good = good

webhook-IsGood :
    (bot : String) (p : RecallPayload) (db : MeetingDb)
    → IsGood db
    → IsGood (apply (webhook bot p) db)
unfolding apply process_recall_webhook
webhook-IsGood bot p db good = elim (rows-cases (select (has_bot bot) db.meetings)) [
  | inl none_found ↦ rw (none_found, process_recall_webhook, apply) good
  | inr (inl (m, one)) ↦
      rw (one, process_recall_webhook, apply) (webhook_for-IsGood p p.code db m good)
  | inr (inr (m, n, ms, more)) ↦ rw (more, process_recall_webhook, apply) good
]

pub apply-IsGood : (op : Op) (db : MeetingDb) → IsGood db → IsGood (apply op db)
unfolding apply
apply-IsGood (create collab profile body call) db good =
    create-IsGood collab profile body call db good
apply-IsGood (patch id profile body call) db good = patch-IsGood id profile body call db good
apply-IsGood (consent id profile now) db good = consent-IsGood id profile now db good
apply-IsGood (revoke id profile now) db good = revoke-IsGood id profile now db good
apply-IsGood (start id) db good = start-IsGood id db good
apply-IsGood (dispatch id d) db good = dispatch-IsGood id d db good
apply-IsGood (webhook bot p) db good = webhook-IsGood bot p db good
