-- ===== src/Invite/Paging.antt =====
-- The keyset pages of services/invite-svc/app/routers/invites.py: rows in the order of their time and
-- then of their id, the newest first, cut at a cursor and at a limit. The text of a cursor, base64 of
-- JSON, is a parameter that decodes to what was encoded.
pub mod Order
pub mod Complete
use colab.Prelude.{
  ℕ, zero, suc, ◌+◌, Bool, true, false, ◌&&◌, ◌||◌, Option, none, some, List, [], ◌∷◌, ◌≡◌, ◌==◌,
  ◌++◌, ltb, length, select, if◌then◌else◌,
}
use colab.Prelude.Uuid.{Uuid}
use colab.Invite.Invites.Expiry.{limit}

-- `_encode_cursor` and `_decode_cursor`; what does not decode is ignored.
pub record Cursors (C : Type 0) : Type 0 where
  pub encode : ℕ × Uuid → C
  pub decode : C → Option (ℕ × Uuid)
  pub decode-encode : (k : ℕ × Uuid) → decode (encode k) ≡ some k

-- `created_at < cur_dt or created_at == cur_dt and id < cur_id`
abbrev pub is_older : ℕ × Uuid → ℕ × Uuid → Bool
is_older cur k = ltb k.0 cur.0 || (k.0 == cur.0 && ltb k.1 cur.1)

module _ {A : Type 0} (key : A → ℕ × Uuid) where
  -- `ORDER BY created_at DESC, id DESC`
  abbrev pub insert_desc : A → List A → List A
  insert_desc x [] = x ∷ []
  insert_desc x (y ∷ ys) = if is_older (key x) (key y) then x ∷ y ∷ ys else y ∷ insert_desc x ys

  abbrev pub order_desc : List A → List A
  order_desc [] = []
  order_desc (x ∷ xs) = insert_desc x (order_desc xs)

  abbrev pub last_key : A → List A → ℕ × Uuid
  last_key x [] = key x
  last_key x (y ∷ ys) = last_key y ys

  abbrev pub after_cursor : Option (ℕ × Uuid) → List A → List A
  after_cursor none rows = rows
  after_cursor (some cur) rows = select (λ x. is_older cur (key x)) rows

  abbrev pub decoded : {C : Type 0} → Cursors C → Option C → Option (ℕ × Uuid)
  decoded cs none = none
  decoded cs (some c) = cs.decode c

  abbrev pub next_of : {C : Type 0} → Cursors C → Bool → List A → Option C
  next_of cs has_next [] = none
  next_of cs has_next (x ∷ items) = if has_next then some (cs.encode (last_key x items)) else none

  -- The items of a page and the cursor of the next one, over the rows that the query filters.
  unfoldable pub page : {C : Type 0} → Cursors C → ℕ → Option C → List A → List A × Option C
  page cs size cursor rows =
      let found = limit (suc size) (order_desc (after_cursor (decoded cs cursor) rows)) in
      let items = limit size found in (items, next_of cs (ltb size (length found)) items)

  -- A page, and the rest from its cursor on.
  abbrev turn : {C : Type 0} → List A × Option C → (C → List A) → List A
  turn (items, none) rest = items
  turn (items, some c) rest = items ++ rest c

  -- What a client reads that follows the cursors; the fuel is the number of pages it is ready to read.
  unfoldable pub follow : {C : Type 0} → (Option C → List A × Option C) → ℕ → Option C → List A
  follow fetch zero cursor = []
  follow fetch (suc fuel) cursor = turn (fetch cursor) (λ c. follow fetch fuel (some c))
