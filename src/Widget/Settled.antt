-- ===== src/Widget/Settled.antt =====
-- The placeholder of the widget is there exactly while a request runs.
use recif.Base.{
  ◌≡◌, refl, sym, ap, ◌∙◌, Bool, true, false, not, ◌||◌, Bool-cases, inl, inr, Option, List, [],
  ◌∷◌, ◌++◌, filter, append-nil, append_assoc, if◌then◌else◌, All, arith,
}
use recif.Text.{Text, trim}
use recif.Json.{nonempty}
use recif.Widget.{
  user, agent, WidgetMessage, ChatWidget, not_thinking, placeholder, begin_widget, end_widget,
  reply_of, WidgetEvent, open_widget, close_widget, send, type_text, answer, on_widget,
  on_widget_events,
}

-- The messages that stay.
abbrev pub settled : List WidgetMessage → List WidgetMessage
settled = filter not_thinking

filter-append {ℓ} :
    {A : Type ℓ} (p : A → Bool) (xs ys : List A) → filter p (xs ++ ys) ≡ filter p xs ++ filter p ys
filter-append p [] ys = refl
filter-append p (x ∷ xs) ys = elim (Bool-cases (p x)) [
  | inl kept ↦ rw kept (ap (x ∷◌) (filter-append p xs ys))
  | inr out ↦ rw out (filter-append p xs ys)
]

settled-settled : (ms : List WidgetMessage) → settled (settled ms) ≡ settled ms
settled-settled [] = refl
settled-settled (m ∷ ms) = elim (Bool-cases (not_thinking m)) [
  | inl kept ↦ rw (kept, kept) (ap (m ∷◌) (settled-settled ms))
  | inr out ↦ rw out (settled-settled ms)
]

-- The messages are those that stay, with the placeholder behind them while a request runs.
abbrev pub HasPlaceholder : ChatWidget → Type 0
HasPlaceholder w = w.messages ≡ settled w.messages ++ (if w.loading then placeholder ∷ [] else [])

settled-append :
    (ms : List WidgetMessage) (t : Text)
    → ms ≡ settled ms
    → settled (ms ++ (record { role = user; content = t } ∷ placeholder ∷ []))
      ≡ ms ++ (record { role = user; content = t } ∷ [])
settled-append ms t h =
    filter-append not_thinking ms (record { role = user; content = t } ∷ placeholder ∷ [])
    ∙ ap (◌++ (record { role = user; content = t } ∷ [])) (sym h)

idle-settled :
    (w : ChatWidget) → HasPlaceholder w → w.loading ≡ false → w.messages ≡ settled w.messages
idle-settled w h idle = h ∙ rw idle (append-nil (settled w.messages))

end_widget-HasPlaceholder : (a : Option Text) (w : ChatWidget) → HasPlaceholder (end_widget a w)
unfolding end_widget
end_widget-HasPlaceholder a w =
    let reply = record { role = agent; content = reply_of a } ∷ [] in
    sym (
      append-nil (settled (settled w.messages ++ reply))
      ∙ filter-append not_thinking (settled w.messages) reply
      ∙ ap (◌++ reply) (settled-settled w.messages))

begin_widget-HasPlaceholder : (w : ChatWidget) → HasPlaceholder w → HasPlaceholder (begin_widget w)
unfolding begin_widget
begin_widget-HasPlaceholder w h = elim (Bool-cases (not (nonempty (trim w.input)) || w.loading)) [
  | inl refused ↦ rw refused h
  | inr sent ↦
      let idle : w.loading ≡ false = ground (arith, sent) in
      let sent_message : List WidgetMessage = record { role = user; content = trim w.input } ∷ [] in
      rw sent (
        sym (append_assoc w.messages sent_message (placeholder ∷ []))
        ∙ ap (◌++ (placeholder ∷ []))
            (sym (settled-append w.messages (trim w.input) (idle-settled w h idle))))
]

if-HasPlaceholder :
    (b : Bool) (v w : ChatWidget)
    → HasPlaceholder v
    → HasPlaceholder w
    → HasPlaceholder (if b then v else w)
if-HasPlaceholder true v w h k = h
if-HasPlaceholder false v w h k = k

on_widget-HasPlaceholder :
    (e : WidgetEvent) (w : ChatWidget) → HasPlaceholder w → HasPlaceholder (on_widget e w)
unfolding on_widget
on_widget-HasPlaceholder open_widget w h = h
on_widget-HasPlaceholder close_widget w h = h
on_widget-HasPlaceholder send w h = begin_widget-HasPlaceholder w h
on_widget-HasPlaceholder (type_text t) w h =
    if-HasPlaceholder w.loading w (record w { input = t }) h h
on_widget-HasPlaceholder (answer a) w h =
    if-HasPlaceholder w.loading (end_widget a w) w (end_widget-HasPlaceholder a w) h

-- Whatever the user does and whenever the answers come, the placeholder is shown exactly while a
-- request runs, once, behind all other messages.
pub on_widget_events-HasPlaceholder :
    (es : List WidgetEvent) (w : ChatWidget)
    → HasPlaceholder w
    → HasPlaceholder (on_widget_events es w)
unfolding on_widget_events
on_widget_events-HasPlaceholder [] w h = h
on_widget_events-HasPlaceholder (e ∷ es) w h =
    on_widget_events-HasPlaceholder es (on_widget e w) (on_widget-HasPlaceholder e w h)

abbrev pub is_answer : WidgetEvent → Bool
is_answer e = elim e [ answer a ↦ true | _ ↦ false ]

kept-if :
    (g : Bool) (w v : ChatWidget)
    → g ≡ true
    → w.loading ≡ true
    → ((if g then w else v).messages ≡ w.messages) × ((if g then w else v).loading ≡ true)
kept-if true w v refused busy = (refl, busy)
kept-if false w v refused busy = absurd (cc refused)

-- While a request runs, neither its messages nor the request is touched but by the answer.
on_widget-busy :
    (e : WidgetEvent) (w : ChatWidget)
    → is_answer e ≡ false
    → w.loading ≡ true
    → ((on_widget e w).messages ≡ w.messages) × ((on_widget e w).loading ≡ true)
unfolding on_widget begin_widget
on_widget-busy open_widget w quiet busy = (refl, busy)
on_widget-busy close_widget w quiet busy = (refl, busy)
on_widget-busy send w quiet busy =
    kept-if (not (nonempty (trim w.input)) || w.loading) w
      (record w {
        input = [];
        loading = true;
        messages =
            w.messages ++ (record { role = user; content = trim w.input } ∷ placeholder ∷ []);
      })
      (ground (arith, busy)) busy
on_widget-busy (type_text t) w quiet busy = kept-if w.loading w (record w { input = t }) busy busy
on_widget-busy (answer a) w quiet busy = absurd (cc quiet)

on_widget_events-busy :
    (es : List WidgetEvent) (w : ChatWidget)
    → All (λ e. is_answer e ≡ false) es
    → w.loading ≡ true
    → ((on_widget_events es w).messages ≡ w.messages) × ((on_widget_events es w).loading ≡ true)
unfolding on_widget_events
on_widget_events-busy [] w quiet busy = (refl, busy)
on_widget_events-busy (e ∷ es) w (q, quiet) busy =
    let (same, still) = on_widget-busy e w q busy in
    let (later, running) = on_widget_events-busy es (on_widget e w) quiet still in
    (later ∙ same, running)

on_widget_events-append :
    (es fs : List WidgetEvent) (w : ChatWidget)
    → on_widget_events (es ++ fs) w ≡ on_widget_events fs (on_widget_events es w)
unfolding on_widget_events
on_widget_events-append [] fs w = refl
on_widget_events-append (e ∷ es) fs w = on_widget_events-append es fs (on_widget e w)

begin_widget-sent :
    (w : ChatWidget)
    → w.loading ≡ false
    → nonempty (trim w.input) ≡ true
    → ((begin_widget w).messages
        ≡ w.messages ++ (record { role = user; content = trim w.input } ∷ placeholder ∷ []))
      × ((begin_widget w).loading ≡ true)
unfolding begin_widget
begin_widget-sent w idle filled =
    let sends : (not (nonempty (trim w.input)) || w.loading) ≡ false =
      ground (arith, idle, filled) in
    rw (sends) (refl, refl)

answer-replied :
    (a : Option Text) (w : ChatWidget)
    → w.loading ≡ true
    → ((on_widget (answer a) w).messages
        ≡ settled w.messages ++ (record { role = agent; content = reply_of a } ∷ []))
      × ((on_widget (answer a) w).loading ≡ false)
unfolding on_widget end_widget
answer-replied a w busy =
    let ends : on_widget (answer a) w ≡ end_widget a w = rw busy refl in rw ends (refl, refl)

-- A message that is sent while no request runs is followed by exactly one reply, that of its own
-- answer, whatever else the user does before the answer comes: opening, closing, typing, pressing
-- the button again.
pub on_widget_events-replied :
    (w : ChatWidget) (es : List WidgetEvent) (a : Option Text)
    → HasPlaceholder w
    → w.loading ≡ false
    → nonempty (trim w.input) ≡ true
    → All (λ e. is_answer e ≡ false) es
    → ((on_widget_events (send ∷ es ++ answer a ∷ []) w).messages
        ≡ w.messages
          ++ (record { role = user; content = trim w.input }
              ∷ record { role = agent; content = reply_of a }
              ∷ []))
      × ((on_widget_events (send ∷ es ++ answer a ∷ []) w).loading ≡ false)
unfolding on_widget_events on_widget
on_widget_events-replied w es a h idle filled quiet =
    let (sent, running) = begin_widget-sent w idle filled in
    let (same, still) = on_widget_events-busy es (begin_widget w) quiet running in
    let (replied, done) = answer-replied a (on_widget_events es (begin_widget w)) still in
    let sent_message : List WidgetMessage = record { role = user; content = trim w.input } ∷ [] in
    let reply : List WidgetMessage = record { role = agent; content = reply_of a } ∷ [] in
    rw (on_widget_events-append es (answer a ∷ []) (begin_widget w)) (
      replied
          ∙ ap (λ ms. settled ms ++ reply) (same ∙ sent)
          ∙ ap (◌++ reply) (settled-append w.messages (trim w.input) (idle-settled w h idle))
          ∙ append_assoc w.messages sent_message reply,
      done,
    )
