-- ===== src/Hub/Streams.antt =====
-- What the clients of a hub see: a replay and then the stream, with no event missed and none repeated.
use fast_tv_playout_core.Base.{
  ℕ, suc, ◌≤◌, ◌≡◌, refl, sym, subst, inl, inr, true, false, List, [], ◌∷◌, ◌++◌, Option, none,
  some, String, ltb, ◌==◌, if◌then◌else◌, length, drop, get_elem?, arith, Bool-cases,
}
use mathlib.Core.List.{append_assoc, append-nil}
use fast_tv_playout_core.Clock.{Instant}
use fast_tv_playout_core.Hub.{
  Event, Subscription, Hub, publish, offer, close_sub, rest_of, subscribe, close, receive,
  buffer_size,
}
use fast_tv_playout_core.Hub.Ring.{Numbered, Numbered-append, IsRing}

-- A hub and what the client of each subscription has read, the replay first.
pub record World (D : Type 0) : Type 1 where
  pub hub : Hub D
  pub got : ℕ → List (Event D)

abbrev pub got_more : {D : Type 0} → (ℕ → List (Event D)) → ℕ → List (Event D) → ℕ → List (Event D)
got_more got i es j = if i == j then got j ++ es else got j

abbrev pub got_anew : {D : Type 0} → (ℕ → List (Event D)) → ℕ → List (Event D) → ℕ → List (Event D)
got_anew got i es j = if i == j then es else got j

abbrev pub to_list : {D : Type 0} → Option (Event D) → List (Event D)
to_list none = []
to_list (some e) = e ∷ []

-- Publishers, subscribers and readers act in any order.
pub data Step {D : Type 0} : World D → World D → Type 1 where
  publishes :
      (w : World D) (type channel : String) (body : D) (now : Instant)
      → Step w (record w { hub = (publish w.hub type channel body now).0 })
  subscribes :
      (w : World D) (after : ℕ)
      → Step w (record {
        hub = (subscribe w.hub after).0;
        got = got_anew w.got (length w.hub.subs) (subscribe w.hub after).1;
      })
  reads :
      (w : World D) (i : ℕ)
      → Step w (record {
        hub = (receive w.hub i).0;
        got = got_more w.got i (to_list (receive w.hub i).1);
      })
  closes : (w : World D) (i : ℕ) → Step w (record w { hub = close w.hub i })

pub data Reach {D : Type 0} (w : World D) : World D → Type 1 where
  here : Reach w w
  next : {u v : World D} → Reach w u → Step u v → Reach w v

-- A client: what it has read and what waits in its channel are numbered one after the other, and go up to the
-- newest event unless it was cut off.
pub record IsStream {D : Type 0} (next : ℕ) (read : List (Event D)) (s : Subscription D)
    : Type 0 where
  pub first : ℕ
  pub last : ℕ
  pub numbered : Numbered first last (read ++ s.buffer)
  pub known : last ≤ next
  pub current : s.closed ≡ false → last ≡ next

pub record IsServed {D : Type 0} (w : World D) : Type 0 where
  pub ring : IsRing w.hub
  pub streams :
      (i : ℕ) (s : Subscription D)
      → get_elem? w.hub.subs i ≡ some s
      → IsStream w.hub.next_id (w.got i) s

module _ {D : Type 0} where
  -- A client that is told nothing more keeps what it has.
  IsStream-grows :
      (n : ℕ) (read : List (Event D)) (s : Subscription D)
      → s.closed ≡ true
      → IsStream n read s
      → IsStream (suc n) read s
  IsStream-grows n read s c t = record {
    first = t.first;
    last = t.last;
    numbered = t.numbered;
    known = omega (arith, t.known);
    current = λ open_. cc;
  }

  cut_off :
      (n : ℕ) (read : List (Event D)) (s : Subscription D)
      → IsStream n read s
      → IsStream n read (record s { closed = true })
  cut_off n read s t = record {
    first = t.first;
    last = t.last;
    numbered = t.numbered;
    known = t.known;
    current = λ open_. cc;
  }

  pub close_sub-IsStream :
      (n : ℕ) (read : List (Event D)) (s : Subscription D)
      → IsStream n read s
      → IsStream n read (close_sub s)
  unfolding close_sub
  close_sub-IsStream n read s t = elim (Bool-cases s.closed) [
    | inl c ↦ subst (IsStream n read) (ground arith) t
    | inr c ↦ subst (IsStream n read) (ground arith) (cut_off n read s t)
  ]

  IsStream-append :
      (n : ℕ) (ev : Event D) (read : List (Event D)) (s : Subscription D)
      → ev.id ≡ n
      → s.closed ≡ false
      → IsStream n read s
      → IsStream (suc n) read (record s { buffer = s.buffer ++ ev ∷ [] })
  IsStream-append n ev read s e c t = record {
    first = t.first;
    last = suc n;
    numbered = subst (Numbered t.first (suc n)) (append_assoc read s.buffer (ev ∷ [])) (
        Numbered-append t.first n (suc n) (read ++ s.buffer) (ev ∷ [])
          (subst (λ b. Numbered t.first b (read ++ s.buffer)) (t.current c) t.numbered) (e, refl));
    known = omega arith;
    current = λ open_. refl;
  }

  pub offer-IsStream :
      (n : ℕ) (ev : Event D) (read : List (Event D)) (s : Subscription D)
      → ev.id ≡ n
      → IsStream n read s
      → IsStream (suc n) read (offer ev s)
  unfolding offer
  offer-IsStream n ev read s e t = elim (Bool-cases s.closed) [
    | inl c ↦ subst (IsStream (suc n) read) (ground arith) (IsStream-grows n read s c t)
    | inr c ↦ elim (Bool-cases (ltb (length s.buffer) buffer_size)) [
      | inl room ↦ subst (IsStream (suc n) read) (ground arith) (IsStream-append n ev read s e c t)
      | inr full ↦
          subst (IsStream (suc n) read) (ground arith)
            (IsStream-grows n read (record s { closed = true }) refl (cut_off n read s t))
    ]
  ]

  -- Reading moves an event from the channel to the client.
  pub rest_of-IsStream :
      (n : ℕ) (read : List (Event D)) (s : Subscription D)
      → IsStream n read s
      → IsStream n (read ++ to_list (get_elem? s.buffer 0)) (rest_of s)
  unfolding rest_of
  rest_of-IsStream n read s t = record {
    first = t.first;
    last = t.last;
    numbered = subst (Numbered t.first t.last) (moved s.buffer) t.numbered;
    known = t.known;
    current = t.current;
  }
    where
      moved : (b : List (Event D)) → read ++ b ≡ (read ++ to_list (get_elem? b 0)) ++ drop 1 b
      moved [] = sym (append-nil _)
      moved (e ∷ es) = sym (append_assoc read (e ∷ []) es)
