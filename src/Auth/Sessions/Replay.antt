-- ===== src/Auth/Sessions/Replay.antt =====
-- What a replayed refresh token leaves behind.
use colab.Prelude.{
  String, true, Bool-cases, ◌≡◌, refl, sym, ◌∙◌, ap, inl, inr, Option, none, some, ◌==◌, find, List,
}
use colab.Auth.Sessions.Rows.{
  Claims, Jwt, Session, AuthState, KeyLife, unauthorized, Answer, ok, raises, User,
}
use colab.Auth.Sessions.{
  Request, JwtSettings, decode_refresh_token, has_hash, refresh_for, refresh_session,
  refresh_decoded, refresh_token, is_jti_revoked, get_session, mark_session_revoked,
}

module _ (jwt : Jwt) (settings : JwtSettings) where
  abbrev with_keys : List KeyLife → AuthState → AuthState
  with_keys keys st = record st { revoked_sessions = keys }

  for_unread :
      (c : Claims) (req : Request) (st : AuthState) (keys : List KeyLife) (s : Session)
      (u : Option User)
      → (refresh_for jwt settings c req (with_keys keys st) s u).0
        ≡ (refresh_for jwt settings c req st s u).0
  for_unread c req st keys s none = refl
  for_unread c req st keys s (some u) = elim (Bool-cases u.is_active) [
    | inl on ↦ rw on refl
    | inr off ↦ rw off refl
  ]

  session_unread :
      (c : Claims) (req : Request) (st : AuthState) (keys : List KeyLife) (s : Option Session)
      → (refresh_session jwt settings c req (with_keys keys st) s).0
        ≡ (refresh_session jwt settings c req st s).0
  session_unread c req st keys none = refl
  session_unread c req st keys (some s) =
      for_unread c req st keys s (find (λ u. u.id == c.sub) st.db.users)

  decoded_unread :
      (token : String) (req : Request) (st : AuthState) (keys : List KeyLife) (a : Answer Claims)
      → (refresh_decoded jwt settings token req (with_keys keys st) a).0
        ≡ (refresh_decoded jwt settings token req st a).0
  decoded_unread token req st keys (raises e) = refl
  decoded_unread token req st keys (ok c) = elim (Bool-cases (is_jti_revoked c.jti req.now st)) [
    | inl used ↦ rw (used, refresh_decoded) refl
    | inr new ↦
        rw (new, refresh_decoded)
          (session_unread c req st keys (find (has_hash (jwt.sha256 token)) st.db.sessions))
  ]

  answer_kept :
      {A : Type 0} (st : AuthState) (r : Answer A × AuthState) → (get_session st r).0 ≡ r.0
  answer_kept st (ok a, after) = refl
  answer_kept st (raises e, after) = refl

  -- No refresh reads `revoked:session:{…}`.
  sessions_unread :
      (token : String) (req : Request) (st : AuthState) (keys : List KeyLife)
      → (refresh_token jwt settings token req (with_keys keys st)).0
        ≡ (refresh_token jwt settings token req st).0
  unfolding refresh_token
  sessions_unread token req st keys = elim (Bool-cases req.within_limit) [
    | inl within ↦ rw within (
        answer_kept (with_keys keys st) (
          refresh_decoded jwt settings token req (with_keys keys st)
            (decode_refresh_token jwt token req.now))
        ∙ decoded_unread token req st keys (decode_refresh_token jwt token req.now)
        ∙ sym (
            answer_kept st
              (refresh_decoded jwt settings token req st (decode_refresh_token jwt token req.now))))
    | inr over ↦ rw over refl
  ]

  replay_state :
      (old : String) (req : Request) (st : AuthState) {c : Claims}
      → req.within_limit ≡ true
      → decode_refresh_token jwt old req.now ≡ ok c
      → is_jti_revoked c.jti req.now st ≡ true
      → refresh_token jwt settings old req st ≡ (
        raises unauthorized,
        with_keys (mark_session_revoked c.sid req.now st).revoked_sessions st,
      )
  unfolding refresh_token
  replay_state old req st within valid used = rw (within, valid, used) refl

  -- Where a refresh token is replayed after its rotation, the request is refused, but the session is not
  -- revoked: the tables are as before, and every refresh token of the session gets the answer that it would
  -- have got without the replay.
  pub refresh_token-replayed :
      (old : String) (req : Request) (st : AuthState) {c : Claims} (token : String)
      (later : Request)
      → req.within_limit ≡ true
      → decode_refresh_token jwt old req.now ≡ ok c
      → is_jti_revoked c.jti req.now st ≡ true
      → ((refresh_token jwt settings old req st).0 ≡ raises unauthorized)
        × ((refresh_token jwt settings old req st).1.db ≡ st.db)
        × ((refresh_token jwt settings token later (refresh_token jwt settings old req st).1).0
            ≡ (refresh_token jwt settings token later st).0)
  refresh_token-replayed old req st {c} token later within valid used =
      let e = replay_state old req st within valid used in
      (
        ap (λ r. r.0) e,
        ap (λ r. r.1.db) e,
        ap (λ r. (refresh_token jwt settings token later r.1).0) e
            ∙ sessions_unread token later st
                (mark_session_revoked c.sid req.now st).revoked_sessions,
      )
