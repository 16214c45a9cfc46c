-- ===== src/Presentation/Notify/Waiters.antt =====
-- The listeners of system/api/src/zkprequest/service.go: every listener that is registered has an
-- empty channel of its own, so an answer reaches all of them.
use Prim.Native.Nat.{zero, suc}
use digital_identity_system.Prelude.{
  ℕ, String, ◌≡◌, refl, ap, ◌∙◌, subst, inl, inr, ◌⊎◌, Bool, true, false, ◌||◌, ◌&&◌, Option, none,
  some, List, [], ◌∷◌, ◌++◌, ◌==◌, eqb, eqb_iff, if◌then◌else◌, arith, eq_iff, length, get_elem?,
  get_elem?-lt, set, get_elem?-set_ne, Bool-cases,
}
use digital_identity_system.Dict
use digital_identity_system.Dict.{Dict, get-put, get-remove}
use digital_identity_system.Presentation.Types.{VerifyResult, Service}
use digital_identity_system.Presentation.Notify.{
  waiting, send, send_all, notify_waiters, register, receive, others, time_out,
}

unfoldable pub among : ℕ → List ℕ → Bool
among ch [] = false
among ch (c ∷ chs) = eqb c ch || among ch chs

-- What an attempt to send does to one buffer.
abbrev pub filled : VerifyResult → Option (Option VerifyResult) → Option (Option VerifyResult)
filled res (some none) = some (some res)
filled res buffer = buffer

get_elem?-send :
    (res : VerifyResult) (c ch : ℕ) (chs : List (Option VerifyResult))
    → get_elem? (send res c chs) ch
      ≡ (if eqb c ch then filled res (get_elem? chs ch) else get_elem? chs ch)
unfolding send
get_elem?-send res c ch [] = ground arith
get_elem?-send res zero zero (none ∷ chs) = refl
get_elem?-send res zero zero (some old ∷ chs) = refl
get_elem?-send res zero (suc ch) (none ∷ chs) = ground arith
get_elem?-send res zero (suc ch) (some old ∷ chs) = ground arith
get_elem?-send res (suc c) zero (buffer ∷ chs) = ground arith
get_elem?-send res (suc c) (suc ch) (buffer ∷ chs) = ground (arith, get_elem?-send res c ch chs)

pub get_elem?-send_all :
    (res : VerifyResult) (ch : ℕ) (to : List ℕ) (chs : List (Option VerifyResult))
    → get_elem? (send_all res to chs) ch
      ≡ (if among ch to then filled res (get_elem? chs ch) else get_elem? chs ch)
unfolding send_all among
get_elem?-send_all res ch [] chs = refl
get_elem?-send_all res ch (c ∷ to) chs =
    ground (arith, get_elem?-send_all res ch to (send res c chs), get_elem?-send res c ch chs)

among-append : (ch : ℕ) (xs ys : List ℕ) → among ch (xs ++ ys) ≡ (among ch xs || among ch ys)
unfolding among
among-append ch [] ys = refl
among-append ch (x ∷ xs) ys = ground (arith, among-append ch xs ys)

among-others :
    (c ch : ℕ) (xs : List ℕ) → among c (others ch xs) ≡ (if eqb c ch then false else among c xs)
unfolding among others
among-others c ch [] = ground arith
among-others c ch (x ∷ xs) = ground (arith, among-others c ch xs)

waiting-put :
    (id other : String) (chs : List ℕ) (m : Dict (List ℕ))
    → waiting other (Dict.put id chs m) ≡ (if id == other then chs else waiting other m)
unfolding waiting
waiting-put id other chs m = ground (arith, get-put id chs other m)

waiting-remove :
    (id other : String) (m : Dict (List ℕ))
    → waiting other (Dict.remove id m) ≡ (if id == other then [] else waiting other m)
unfolding waiting
waiting-remove id other m = ground (arith, get-remove id other m)

-- A registered listener has an empty channel, and is registered under one id only.
pub record IsWaitable (s : Service) : Type 0 where
  pub empty :
      (id : String) (ch : ℕ)
      → among ch (waiting id s.waiters) ≡ true
      → get_elem? s.channels ch ≡ some none
  pub apart :
      (id other : String) (ch : ℕ)
      → among ch (waiting id s.waiters) ≡ true
      → among ch (waiting other s.waiters) ≡ true
      → (id == other) ≡ true

module _ (id : String) (res : VerifyResult) (s : Service) (w : IsWaitable s) where
  -- In a service where every listener has an empty channel of its own, every listener of the id
  -- finds the answer in its channel.
  pub notify_waiters_delivers :
      (ch : ℕ)
      → among ch (waiting id s.waiters) ≡ true
      → get_elem? (notify_waiters id res s).channels ch ≡ some (some res)
  unfolding notify_waiters
  notify_waiters_delivers ch h =
      get_elem?-send_all res ch (waiting id s.waiters) s.channels ∙ simp (h, w.empty id ch h)

  still_registered :
      (other : String) (ch : ℕ)
      → among ch (waiting other (Dict.remove id s.waiters)) ≡ true
      → ((id == other) ≡ false) × (among ch (waiting other s.waiters) ≡ true)
  unfolding among
  still_registered other ch h = elim (Bool-cases (id == other)) [
    | inl e ↦ absurd (cc (rw (waiting-remove id other s.waiters, e) at h))
    | inr e ↦ (e, rw (waiting-remove id other s.waiters, e) at h)
  ]

  still_empty :
      (other : String) (ch : ℕ)
      → among ch (waiting other (Dict.remove id s.waiters)) ≡ true
      → get_elem? (send_all res (waiting id s.waiters) s.channels) ch ≡ some none
  still_empty other ch h =
      let (differ, there) = still_registered other ch h in
      get_elem?-send_all res ch (waiting id s.waiters) s.channels
      ∙ (elim (Bool-cases (among ch (waiting id s.waiters))) [
        | inl e ↦ absurd (cc (w.apart id other ch e there))
        | inr e ↦ simp e (w.empty other ch there)
      ])

  pub notify_waiters-IsWaitable : IsWaitable (notify_waiters id res s)
  unfolding notify_waiters
  notify_waiters-IsWaitable = record {
    empty = still_empty;
    apart = λ a b ch h k. w.apart a b ch (still_registered a ch h).1 (still_registered b ch k).1;
  }

List-cases {ℓ} : {A : Type ℓ} (l : List A) → (l ≡ []) ⊎ ((x : A) × (xs : List A) × (l ≡ x ∷ xs))
List-cases [] = inl refl
List-cases (x ∷ xs) = inr (x, xs, refl)

get_elem?-append {ℓ} :
    {A : Type ℓ} (xs ys : List A) (i : ℕ) {a : A}
    → get_elem? xs i ≡ some a
    → get_elem? (xs ++ ys) i ≡ some a
get_elem?-append [] ys i h = absurd (cc h)
get_elem?-append (x ∷ xs) ys zero h = h
get_elem?-append (x ∷ xs) ys (suc i) h = get_elem?-append xs ys i h

get_elem?-concat {ℓ} :
    {A : Type ℓ} (xs : List A) (a : A) → get_elem? (xs ++ a ∷ []) (length xs) ≡ some a
get_elem?-concat [] a = refl
get_elem?-concat (x ∷ xs) a = get_elem?-concat xs a

module _ (id : String) (s : Service) (w : IsWaitable s) where
  -- A listener that registers is new: its channel was registered nowhere.
  not_yet : (other : String) → among (length s.channels) (waiting other s.waiters) ≡ false
  not_yet other = elim (Bool-cases (among (length s.channels) (waiting other s.waiters))) [
    | inl e ↦
        let h = w.empty other (length s.channels) e in
        absurd (omega (arith, get_elem?-lt s.channels (length s.channels) h))
    | inr e ↦ e
  ]

  among-register :
      (other : String) (ch : ℕ)
      → among ch (waiting other (register id s).0.waiters)
        ≡ (among ch (waiting other s.waiters) || id == other && eqb (length s.channels) ch)
  unfolding register among
  among-register other ch = elim (Bool-cases (id == other)) [
    | inl e ↦
        let one = (eq_iff id other).0 e in
        ap (among ch)
          (waiting-put id other (waiting id s.waiters ++ length s.channels ∷ []) s.waiters)
        ∙ simp (e, among-append) (rw one (ground arith))
    | inr e ↦
        ap (among ch)
          (waiting-put id other (waiting id s.waiters ++ length s.channels ∷ []) s.waiters)
        ∙ simp e (ground arith)
  ]

  registered_cases :
      (other : String) (ch : ℕ)
      → among ch (waiting other (register id s).0.waiters) ≡ true
      → (among ch (waiting other s.waiters) ≡ true)
        ⊎ ((id == other) ≡ true) × (length s.channels ≡ ch)
  registered_cases other ch h =
      ground (arith, among-register other ch, eqb_iff (length s.channels) ch)

  register_apart :
      (a b : String) (ch : ℕ)
      → among ch (waiting a (register id s).0.waiters) ≡ true
      → among ch (waiting b (register id s).0.waiters) ≡ true
      → (a == b) ≡ true
  register_apart a b ch h k = elim (registered_cases a ch h) [
    | inl old ↦ elim (registered_cases b ch k) [
      | inl old' ↦ w.apart a b ch old old'
      | inr new ↦ absurd (cc (subst (λ c. among c (waiting a s.waiters) ≡ false) new.1 (not_yet a)))
    ]
    | inr new ↦ elim (registered_cases b ch k) [
      | inl old ↦ absurd (cc (subst (λ c. among c (waiting b s.waiters) ≡ false) new.1 (not_yet b)))
      | inr new' ↦ ground (arith, eq_iff id a, eq_iff id b, eq_iff a b)
    ]
  ]

  register_empty :
      (other : String) (ch : ℕ)
      → among ch (waiting other (register id s).0.waiters) ≡ true
      → get_elem? (register id s).0.channels ch ≡ some none
  unfolding register
  register_empty other ch h = elim (registered_cases other ch h) [
    | inl old ↦ get_elem?-append s.channels (none ∷ []) ch (w.empty other ch old)
    | inr new ↦
        subst (λ c. get_elem? (s.channels ++ none ∷ []) c ≡ some none) new.1
          (get_elem?-concat s.channels none)
  ]

  pub register-IsWaitable : IsWaitable (register id s).0
  register-IsWaitable = record { empty = register_empty; apart = register_apart }

  waiting-time_out :
      (ch : ℕ) (other : String)
      → waiting other (time_out id ch s).0.waiters
        ≡ (if id == other then others ch (waiting id s.waiters) else waiting other s.waiters)
  unfolding time_out
  waiting-time_out ch other = elim (List-cases (others ch (waiting id s.waiters))) [
    | inl e ↦ simp e (waiting-remove id other s.waiters)
    | inr (x, xs, e) ↦ simp e (waiting-put id other (x ∷ xs) s.waiters)
  ]

  time_out_only :
      (ch other_ch : ℕ) (other : String)
      → among other_ch (waiting other (time_out id ch s).0.waiters) ≡ true
      → among other_ch (waiting other s.waiters) ≡ true
  time_out_only ch c other h = elim (Bool-cases (id == other)) [
    | inl e ↦
        let one = (eq_iff id other).0 e in
        let left : among c (others ch (waiting id s.waiters)) ≡ true =
          rw (waiting-time_out ch other, e) at h in
        subst (λ o. among c (waiting o s.waiters) ≡ true) one
          (ground (arith, among-others c ch (waiting id s.waiters)))
    | inr e ↦ rw (waiting-time_out ch other, e) at h
  ]

  channels-time_out : (ch : ℕ) → (time_out id ch s).0.channels ≡ s.channels
  unfolding time_out
  channels-time_out ch = refl

  pub time_out-IsWaitable : (ch : ℕ) → IsWaitable (time_out id ch s).0
  time_out-IsWaitable ch = record {
    empty = λ other c h. rw (channels-time_out ch) (w.empty other c (time_out_only ch c other h));
    apart = λ a b c h k. w.apart a b c (time_out_only ch c a h) (time_out_only ch c b k);
  }

module _ (ch : ℕ) (s t : Service) (res : VerifyResult) (w : IsWaitable s) where
  pub received :
      receive ch s ≡ some (t, res)
      → (get_elem? s.channels ch ≡ some (some res))
        × (t ≡ record s { channels = set s.channels ch none })
  unfolding receive
  received h = ground arith

  -- Taking an answer out of a channel leaves the other listeners as they are.
  pub receive-IsWaitable : receive ch s ≡ some (t, res) → IsWaitable t
  receive-IsWaitable h =
      let (full, e) = received h in
      rw e (record {
        empty = λ other c k.
            get_elem?-set_ne s.channels ch c none
              (λ same. cc (w.empty other c k, full, ap (get_elem? s.channels) same))
            ∙ w.empty other c k;
        apart = w.apart;
      })
