-- ===== src/Server/Reading/Calls.antt =====
-- src/uv_net.cpp: the callback of recvdata, one packet after the other, until an exception leaves it.
use ocserver.Common.{
  ◌≡◌, ◌⊎◌, inl, inr, refl, ap, ◌∙◌, sym, Bool, true, false, List, [], ◌∷◌, ◌++◌, append_assoc, All,
  Bool-cases, if◌then◌else◌,
}
use ocserver.PacketSync.{Frame, PacketSync, Outcome, done, crashed, stuck}
use ocserver.PacketSync.Streams.{recv_then, with_frames}
use ocserver.Server.Reading.{
  Handled, handled, thrown, asserts, out_of_range, no_return, behind, then_handle, get_packets,
}

module _ {S : Type 0} where
  pub behind-nil : (h : Handled S) → behind [] h ≡ h
  behind-nil (handled fs r) = refl
  behind-nil (thrown fs) = refl
  behind-nil (asserts fs) = refl
  behind-nil (out_of_range fs) = refl
  behind-nil no_return = refl

  behind-append :
      (fs gs : List Frame) (h : Handled S) → behind fs (behind gs h) ≡ behind (fs ++ gs) h
  behind-append fs gs (handled hs r) = ap (λ l. handled l r) (sym (append_assoc fs gs hs))
  behind-append fs gs (thrown hs) = ap thrown (sym (append_assoc fs gs hs))
  behind-append fs gs (asserts hs) = ap asserts (sym (append_assoc fs gs hs))
  behind-append fs gs (out_of_range hs) = ap out_of_range (sym (append_assoc fs gs hs))
  behind-append fs gs no_return = refl

  then_handle-behind :
      (k : S → Handled S) (fs : List Frame) (h : Handled S)
      → then_handle k (behind fs h) ≡ behind fs (then_handle k h)
  then_handle-behind k fs (handled gs r) = sym (behind-append fs gs (k r))
  then_handle-behind k fs (thrown gs) = refl
  then_handle-behind k fs (asserts gs) = refl
  then_handle-behind k fs (out_of_range gs) = refl
  then_handle-behind k fs no_return = refl

  then_if :
      (k : S → Handled S) (b : Bool) (h : Handled S)
      → then_handle k (if b then thrown [] else h) ≡ (if b then thrown [] else then_handle k h)
  then_if k true h = refl
  then_if k false h = refl

  module _ (throws : Frame → Bool) where
    -- What follows the calls happens if they all return.
    pub then_handle-get_packets :
        (k : S → Handled S) (fs : List Frame) (r : S)
        → then_handle k (get_packets throws fs (handled [] r)) ≡ get_packets throws fs (k r)
    unfolding get_packets
    then_handle-get_packets k [] r = behind-nil (k r)
    then_handle-get_packets k (f ∷ fs) r =
        then_handle-behind k (f ∷ []) _
        ∙ ap (behind (f ∷ [])) (
            then_if k (throws f) _
            ∙ ap (λ h. if throws f then thrown [] else h) (then_handle-get_packets k fs r))

    pub get_packets-append :
        (fs gs : List Frame) (h : Handled S)
        → get_packets throws fs (get_packets throws gs h) ≡ get_packets throws (fs ++ gs) h
    unfolding get_packets
    get_packets-append [] gs h = refl
    get_packets-append (f ∷ fs) gs h =
        ap (λ h. behind (f ∷ []) (if throws f then thrown [] else h)) (get_packets-append fs gs h)

    -- The packets up to the first one whose call ends with an exception.
    pub record StopsAt (fs : List Frame) (h : Handled S) : Type 0 where
      pub before : List Frame
      pub frame : Frame
      pub after : List Frame
      pub split : fs ≡ before ++ (frame ∷ after)
      pub return_before : All (λ f. throws f ≡ false) before
      pub throws_at : throws frame ≡ true
      pub ends : h ≡ thrown (before ++ (frame ∷ []))

    -- All calls return, or the program ends at the first that does not.
    pub get_packets-cases :
        (fs : List Frame) (r : S)
        → (All (λ f. throws f ≡ false) fs × (get_packets throws fs (handled [] r) ≡ handled fs r))
          ⊎ StopsAt fs (get_packets throws fs (handled [] r))
    unfolding get_packets
    get_packets-cases [] r = inl (tt, refl)
    get_packets-cases (f ∷ fs) r = elim (Bool-cases (throws f)) [
      | inl y ↦ inr (record {
        before = [];
        frame = f;
        after = fs;
        split = refl;
        return_before = tt;
        throws_at = y;
        ends =
            ap
              (λ b. behind (f ∷ []) (if b then thrown [] else get_packets throws fs (handled [] r)))
              y;
      })
      | inr n ↦
          let step =
            ap
              (λ b. behind (f ∷ []) (if b then thrown [] else get_packets throws fs (handled [] r)))
              n in
          elim (get_packets-cases fs r) [
            | inl (a, e) ↦ inl ((n, a), step ∙ ap (behind (f ∷ [])) e)
            | inr s ↦ inr (record {
              before = f ∷ s.before;
              frame = s.frame;
              after = s.after;
              split = ap (λ l. f ∷ l) s.split;
              return_before = (n, s.return_before);
              throws_at = s.throws_at;
              ends = step ∙ ap (behind (f ∷ [])) s.ends;
            })
          ]
    ]

-- The first call that ends with an exception is the last.
pub get_packets-stop :
    {S : Type 0} (throws : Frame → Bool) (before : List Frame) (f : Frame) (after : List Frame)
    (h : Handled S)
    → All (λ g. throws g ≡ false) before
    → throws f ≡ true
    → get_packets throws (before ++ (f ∷ after)) h ≡ thrown (before ++ (f ∷ []))
unfolding get_packets
get_packets-stop throws [] f after h a e =
    ap (λ b. behind (f ∷ []) (if b then thrown [] else get_packets throws after h)) e
get_packets-stop throws (g ∷ before) f after h (n, a) e =
    ap
      (λ b. behind (g ∷ []) (if b then thrown [] else get_packets throws (before ++ (f ∷ after)) h))
      n
    ∙ ap (behind (g ∷ [])) (get_packets-stop throws before f after h a e)

-- A call of recvdata and those behind it, when all of them return.
pub recv_then-done :
    (k : PacketSync → Outcome) (o : Outcome) (fs : List Frame) (s : PacketSync)
    → recv_then k o ≡ done fs s
    → (gs hs : List Frame) × (s' : PacketSync) × (o ≡ done gs s')
      × (k s' ≡ done hs s)
      × (gs ++ hs ≡ fs)
recv_then-done k (done gs s') fs s e = by_rest (k s') refl e
  where
    by_rest :
        (o : Outcome)
        → k s' ≡ o
        → with_frames gs o ≡ done fs s
        → (gs' hs : List Frame) × (s2 : PacketSync) × (done gs s' ≡ done gs' s2)
          × (k s2 ≡ done hs s)
          × (gs' ++ hs ≡ fs)
    by_rest (done hs t) p e = (gs, hs, s', refl, p ∙ ap (done hs) (cc), cc)
    by_rest (crashed hs) p e = absurd (cc)
    by_rest stuck p e = absurd (cc)
recv_then-done k (crashed gs) fs s e = absurd (cc)
recv_then-done k stuck fs s e = absurd (cc)
