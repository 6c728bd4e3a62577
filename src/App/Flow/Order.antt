-- ===== src/App/Flow/Order.antt =====
-- The order of one stream's frames, over all ways in which its three threads take turns.
use koala_streamer.Prelude.{
  ℕ, ◌≡◌, sym, ap, ◌∙◌, subst, none, some, List, [], ◌∷◌, ◌++◌, length, append_assoc, append-nil,
}
use koala_streamer.Prelude.Maybe.{some_injective}
use koala_streamer.Prelude.Sublists.{
  IsSublist, IsSublist_refl, IsSublist_trans, IsSublist-append, IsSublist_left, IsSublist_more,
}
use koala_streamer.Frame.{Frame}
use koala_streamer.Fifo.Spec.{offer, poll}
use koala_streamer.FrameQueue.{put_signal, get_signal}
use koala_streamer.FrameQueue.Refine.{Represents, put-Represents, get-Represents}
use koala_streamer.App.Start.{create-Represents}
use koala_streamer.App.Flow.{
  Flow, new_flow, Step, captures, times_out, deals, stores, drops, hands_out, shortens, Reach, here,
  next,
}
use koala_streamer.App.Flow.Lists.{
  results, held, firsts, firsts-append, results-append, offer-IsSublist, shorten-IsSublist,
}

module _ (m n : ℕ) where
  -- What the two queues store, and the order of everything.
  record IsOrdered (w : Flow) : Type 0 where
    raw : List Frame
    encoded : List Frame
    holds_raw : Represents w.raw.queue m raw
    holds_encoded : Represents w.encoded.queue n encoded
    taken : IsSublist (firsts w.dealt ++ raw) w.captured
    given : IsSublist (w.handed_out ++ encoded ++ held w.pending) (results w.dealt)

  none_held : (xs : List Frame) {zs : List Frame} → IsSublist xs zs → IsSublist (xs ++ held none) zs
  none_held xs {zs} h = subst (λ l. IsSublist l zs) (sym (append-nil xs)) h

  -- The list that poll takes its item from.
  poll-some : (xs : List Frame) (f : Frame) → (poll xs).0 ≡ some f → xs ≡ f ∷ (poll xs).1
  unfolding poll
  poll-some [] f h = cc
  poll-some (x ∷ xs) f h = ap (λ y. y ∷ xs) (some_injective h)

  Step-IsOrdered : (w w' : Flow) → IsOrdered w → Step n w w' → IsOrdered w'
  unfolding put_signal get_signal
  Step-IsOrdered w w' v (captures f e) = subst IsOrdered (sym e) (record {
    raw = (offer m v.raw f).1;
    encoded = v.encoded;
    holds_raw = put-Represents f v.raw v.holds_raw;
    holds_encoded = v.holds_encoded;
    taken =
        IsSublist_trans
          (IsSublist-append (IsSublist_refl (firsts w.dealt)) (offer-IsSublist m v.raw f))
          (subst (λ l. IsSublist l (w.captured ++ (f ∷ [])))
            (append_assoc (firsts w.dealt) v.raw (f ∷ []))
            (IsSublist-append v.taken (IsSublist_refl (f ∷ []))));
    given = v.given;
  })
  Step-IsOrdered w w' v (times_out f e) = subst IsOrdered (sym e) (record {
    raw = v.raw;
    encoded = v.encoded;
    holds_raw = v.holds_raw;
    holds_encoded = v.holds_encoded;
    taken = IsSublist_more (f ∷ []) v.taken;
    given = v.given;
  })
  Step-IsOrdered w w' v (deals f r h k e) =
      let got = get-Represents v.raw v.holds_raw in
      let whole = poll-some v.raw f (sym got.0 ∙ k) in
      subst IsOrdered (sym e) (record {
        raw = (poll v.raw).1;
        encoded = v.encoded;
        holds_raw = got.1;
        holds_encoded = v.holds_encoded;
        taken =
            subst (λ l. IsSublist l w.captured)
              (ap (λ l. firsts w.dealt ++ l) whole
                ∙ sym (append_assoc (firsts w.dealt) (f ∷ []) (poll v.raw).1)
                ∙ ap (λ l. l ++ (poll v.raw).1) (sym (firsts-append w.dealt f r)))
              v.taken;
        given =
            subst (λ l. IsSublist (w.handed_out ++ v.encoded ++ held r) l)
              (sym (results-append w.dealt f r))
              (IsSublist-append (IsSublist_left _ (held w.pending) v.given)
                (IsSublist_refl (held r)));
      })
  Step-IsOrdered w w' v (stores g h e) = subst IsOrdered (sym e) (record {
    raw = v.raw;
    encoded = (offer n v.encoded g).1;
    holds_raw = v.holds_raw;
    holds_encoded = put-Represents g v.encoded v.holds_encoded;
    taken = v.taken;
    given = none_held (w.handed_out ++ (offer n v.encoded g).1) (
        IsSublist_trans
          (IsSublist-append (IsSublist_refl w.handed_out) (offer-IsSublist n v.encoded g))
          (subst (λ l. IsSublist l (results w.dealt)) (append_assoc w.handed_out v.encoded (g ∷ []))
            (subst (λ p. IsSublist (w.handed_out ++ v.encoded ++ held p) (results w.dealt)) h
              v.given)));
  })
  Step-IsOrdered w w' v (drops g h e) = subst IsOrdered (sym e) (record {
    raw = v.raw;
    encoded = v.encoded;
    holds_raw = v.holds_raw;
    holds_encoded = v.holds_encoded;
    taken = v.taken;
    given = none_held (w.handed_out ++ v.encoded) (IsSublist_left _ (held w.pending) v.given);
  })
  Step-IsOrdered w w' v (hands_out g k e) =
      let got = get-Represents v.encoded v.holds_encoded in
      let whole = poll-some v.encoded g (sym got.0 ∙ k) in
      subst IsOrdered (sym e) (record {
        raw = v.raw;
        encoded = (poll v.encoded).1;
        holds_raw = v.holds_raw;
        holds_encoded = got.1;
        taken = v.taken;
        given =
            subst (λ l. IsSublist (l ++ held w.pending) (results w.dealt))
              (ap (λ l. w.handed_out ++ l) whole
                ∙ sym (append_assoc w.handed_out (g ∷ []) (poll v.encoded).1))
              v.given;
      })
  Step-IsOrdered w w' v (shortens limit func fuel q released progress enough h e) =
      let (ys, holds, kept) =
        shorten-IsSublist n limit func fuel w.encoded q v.encoded released progress enough
          v.holds_encoded h in
      subst IsOrdered (sym e) (record {
        raw = v.raw;
        encoded = ys;
        holds_raw = v.holds_raw;
        holds_encoded = holds;
        taken = v.taken;
        given =
            IsSublist_trans
              (IsSublist-append (IsSublist-append (IsSublist_refl w.handed_out) kept)
                (IsSublist_refl (held w.pending)))
              v.given;
      })

  Reach-IsOrdered : (w w' : Flow) → IsOrdered w → Reach n w w' → IsOrdered w'
  Reach-IsOrdered w w' v here = v
  Reach-IsOrdered w w' v (next {u = u} r st) = Step-IsOrdered u w' (Reach-IsOrdered w u v r) st

-- Whatever the turns of the threads, the wakeups, the timeouts and the cleanings are, from two new
-- queues on: the frames that the encoder dealt with are some of the captured frames, in the order of
-- their capture, and the frames handed out to the streamer are some of those that the encoder made,
-- in the order in which it made them; none is there twice.
pub Reach-IsSublist :
    (cells : ℕ → List Frame) (m n : ℕ) (w : Flow)
    → ((k : ℕ) → length (cells k) ≡ k)
    → Reach n (new_flow cells m n) w
    → IsSublist (firsts w.dealt) w.captured × IsSublist w.handed_out (results w.dealt)
Reach-IsSublist cells m n w sized r =
    let v =
      Reach-IsOrdered m n (new_flow cells m n) w
        (record {
          raw = [];
          encoded = [];
          holds_raw = create-Represents cells sized m;
          holds_encoded = create-Represents cells sized n;
          taken = IsSublist_refl [];
          given = IsSublist_refl [];
        })
        r in
    (
      IsSublist_left _ v.raw v.taken,
      IsSublist_left w.handed_out v.encoded (IsSublist_left _ (held w.pending) v.given),
    )
