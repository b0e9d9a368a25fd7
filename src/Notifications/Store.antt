-- ===== src/Notifications/Store.antt =====
-- The list of notifications: every identifier in it is its own.
use recif.Base.{
  ℕ, ◌+◌, ◌<◌, ◌≤◌, ◌≡◌, refl, ap, Bool, true, not, Bool-cases, inl, inr, List, [], ◌∷◌, map,
  filter, arith, if◌then◌else◌,
}
use recif.Text.{Text, text_eq}
use recif.Text.Equality.{text_eq_refl, text_eq_sound}
use recif.Notifications.{
  Notification, Provider, Draft, make_id, push, mark_read, mark_all_read, dismiss, unread_in,
  unread_count,
}
use recif.Notifications.Ids.{counter_of, counter_of-make_id}

-- The counters of a list fall, from below `bound` on.
abbrev pub Falls : ℕ → List Notification → Type 0
Falls bound [] = Unit
Falls bound (n ∷ ns) = (counter_of n.id < bound) × Falls (counter_of n.id) ns

-- The newest notification stands first, and no counter is above the module's.
abbrev pub IsOrdered : Provider → Type 0
IsOrdered p = Falls (p.id_counter + 1) p.notifications

Falls-weaken : (a b : ℕ) (ns : List Notification) → a ≤ b → Falls a ns → Falls b ns
Falls-weaken a b [] h _ = tt
Falls-weaken a b (n ∷ ns) h (k, f) = (omega (arith, h, k), f)

pub push-IsOrdered : (now : ℕ) (d : Draft) (p : Provider) → IsOrdered p → IsOrdered (push now d p).0
unfolding push
push-IsOrdered now d p h = rw (counter_of-make_id now (p.id_counter + 1)) (omega arith, h)

pub Falls-filter :
    (keep : Notification → Bool) (bound : ℕ) (ns : List Notification)
    → Falls bound ns
    → Falls bound (filter keep ns)
Falls-filter keep bound [] _ = tt
Falls-filter keep bound (n ∷ ns) (h, f) = elim (Bool-cases (keep n)) [
  | inl kept ↦ rw kept (h, Falls-filter keep (counter_of n.id) ns f)
  | inr gone ↦ rw gone (
      Falls-weaken (counter_of n.id) bound (filter keep ns) (omega (arith, h))
        (Falls-filter keep (counter_of n.id) ns f))
]

pub Falls-map :
    (f : Notification → Notification) (bound : ℕ) (ns : List Notification)
    → ((n : Notification) → (f n).id ≡ n.id)
    → Falls bound ns
    → Falls bound (map f ns)
Falls-map f bound [] same _ = tt
Falls-map f bound (n ∷ ns) same (h, k) = rw (same n) (h, Falls-map f (counter_of n.id) ns same k)

-- No notification of a falling list has the identifier of a counter that is not below its bound.
absent :
    (id : Text) (bound : ℕ) (ns : List Notification)
    → bound ≤ counter_of id
    → Falls bound ns
    → filter (λ (n : Notification). not (text_eq n.id id)) ns ≡ ns
absent id bound [] h _ = refl
absent id bound (n ∷ ns) h (k, f) = elim (Bool-cases (text_eq n.id id)) [
  | inl same ↦ absurd (omega (arith, h, k, ap counter_of (text_eq_sound n.id id same)))
  | inr other ↦ rw other (ap (n ∷◌) (absent id (counter_of n.id) ns (omega (arith, h, k)) f))
]

-- Where the identifiers are in order, to dismiss the notification that was just pushed, by the id
-- that push returns, gives the list from before.
pub dismiss-push :
    (now : ℕ) (d : Draft) (p : Provider)
    → IsOrdered p
    → (dismiss (push now d p).1 (push now d p).0).notifications ≡ p.notifications
unfolding push dismiss
dismiss-push now d p h = rw (text_eq_refl (make_id now (p.id_counter + 1))) (
    absent (make_id now (p.id_counter + 1)) (p.id_counter + 1) p.notifications
      (omega (arith, counter_of-make_id now (p.id_counter + 1))) h)

-- Nor is any of them marked as read.
untouched :
    (id : Text) (bound : ℕ) (ns : List Notification)
    → bound ≤ counter_of id
    → Falls bound ns
    → map (λ (n : Notification). if text_eq n.id id then record n { read = true } else n) ns ≡ ns
untouched id bound [] h _ = refl
untouched id bound (n ∷ ns) h (k, f) = elim (Bool-cases (text_eq n.id id)) [
  | inl same ↦ absurd (omega (arith, h, k, ap counter_of (text_eq_sound n.id id same)))
  | inr other ↦ rw other (ap (n ∷◌) (untouched id (counter_of n.id) ns (omega (arith, h, k)) f))
]

unread_in-all_read :
    (ns : List Notification)
    → unread_in (map (λ (n : Notification). record n { read = true }) ns) ≡ 0
unread_in-all_read [] = refl
unread_in-all_read (n ∷ ns) = unread_in-all_read ns

-- Where the identifiers are in order, a push makes the badge one more, reading that notification
-- takes it back to what it was, whatever the other notifications are, and reading all makes it 0.
pub unread_count-push :
    (now : ℕ) (d : Draft) (p : Provider)
    → IsOrdered p
    → (unread_count (push now d p).0 ≡ unread_count p + 1)
      × (unread_count (mark_read (push now d p).1 (push now d p).0) ≡ unread_count p)
      × (unread_count (mark_all_read (push now d p).0) ≡ 0)
unfolding push mark_read mark_all_read unread_count
unread_count-push now d p h = (
  omega arith,
  rw (text_eq_refl (make_id now (p.id_counter + 1))) (
      ap unread_in (
        untouched (make_id now (p.id_counter + 1)) (p.id_counter + 1) p.notifications
          (omega (arith, counter_of-make_id now (p.id_counter + 1))) h)),
  unread_in-all_read p.notifications,
)
