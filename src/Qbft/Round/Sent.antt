-- ===== src/Qbft/Round/Sent.antt =====
-- qbft/protocol.py: the ROUND-CHANGE that an instance sends is justified in the eyes of every node.
use distributed_validator_sp.Base.{
  ℕ, ◌≤◌, ◌≡◌, refl, sym, ap, ◌∙◌, true, false, ◌&&◌, Bool, ◌==◌, nat_eq, list_eq, Option, none,
  some, List, [], length, ok, All, All-mono, le→ltb, inl, inr, filter_all, ◌≢◌, if◌then◌else◌,
}
use distributed_validator_sp.Types.{Bytes, Duty}
use distributed_validator_sp.Crypto.{Crypto}
use distributed_validator_sp.Qbft.Definition.{Definition, quorum}
use distributed_validator_sp.Qbft.Message.{prepare, QbftMsg, QbftConsensusMsg}
use distributed_validator_sp.Qbft.State.{QbftConsensus}
use distributed_validator_sp.Qbft.Justify.{
  matches, is_none_prepared, is_justified, justified_as, is_justified_round_change,
}
use distributed_validator_sp.Qbft.Handle.{send_round_change}
use distributed_validator_sp.Qbft.Sent.{Carries, round_change_msg, broadcast_round_change-Carries}
use distributed_validator_sp.Qbft.Leader.Accepted.{is_justified-Carries}
use distributed_validator_sp.Qbft.Invariant.{IsValid, HasPrepares}

if_same : (b : Bool) → (if b then true else true) ≡ true
if_same true = refl
if_same false = refl

module _ (d : Definition) (duty : Duty) (peer round : ℕ) where
  accepted_nothing :
      is_justified d duty (record {
        msg = round_change_msg duty peer round none none;
        justification = [];
        values = [];
      })
      ≡ ok true
  unfolding is_justified justified_as is_justified_round_change
  accepted_nothing = refl

  accepted_prepared :
      (pr : ℕ) (hash : Bytes) (js : List QbftMsg)
      → quorum d ≤ length js
      → All (λ j. matches prepare pr (some hash) j ≡ true) js
      → is_justified d duty (record {
        msg = round_change_msg duty peer round (some pr) (some hash);
        justification = js;
        values = [];
      })
        ≡ ok true
  unfolding is_justified justified_as is_justified_round_change
  accepted_prepared pr hash js q a =
      rw (filter_all (matches prepare pr (some hash)) js a, le→ltb (length js) (quorum d) q)
        (ap ok (
          if_same (
            length js == 0
            && is_none_prepared (round_change_msg duty peer round (some pr) (some hash)))))

  accepted_hash :
      (pr : ℕ) (hash : Option Bytes) (js : List QbftMsg)
      → hash ≢ none
      → quorum d ≤ length js
      → All (λ j. matches prepare pr hash j ≡ true) js
      → is_justified d duty (record {
        msg = round_change_msg duty peer round (some pr) hash;
        justification = js;
        values = [];
      })
        ≡ ok true
  accepted_hash pr none js h q a = absurd (h refl)
  accepted_hash pr (some hash) js h q a = accepted_prepared pr hash js q a

  accepted :
      (current : ℕ) (pr : Option ℕ) (hash : Option Bytes) (js : List QbftMsg)
      → HasPrepares d current pr hash js
      → (pr ≢ none → hash ≢ none)
      → is_justified d duty (record {
        msg = round_change_msg duty peer round pr hash;
        justification = js;
        values = [];
      })
        ≡ ok true
  accepted current pr hash js (inl (p, h, j)) v = rw (p, h, j) accepted_nothing
  accepted current pr hash js (inr (r, p, le, q, a)) v =
      rw p (accepted_hash r hash js (v (λ e. let z : some r ≡ none = sym p ∙ e in cc)) q a)

-- From a state with the invariant that has not decided, where a prepared round comes with a value
-- hash, every ROUND-CHANGE that is sent is justified for every node of the cluster.
pub round_change_accepted :
    (c : Crypto) (s : QbftConsensus) (ms : List QbftConsensusMsg)
    → IsValid s
    → s.q_commit ≡ []
    → (s.prepared_round ≢ none → s.prepared_value_hash ≢ none)
    → send_round_change c s ≡ ok ms
    → All (λ m. is_justified s.d s.duty m ≡ ok true) ms
unfolding send_round_change
round_change_accepted c s ms v e h b =
    let m = round_change_msg s.duty s.peer s.round s.prepared_round s.prepared_value_hash in
    let js = s.prepared_justification in
    All-mono (Carries m js) (λ m. is_justified s.d s.duty m ≡ ok true) ms
      (λ cm k.
        is_justified-Carries s.d s.duty m js cm k
        ∙ accepted s.d s.duty s.peer s.round s.round s.prepared_round s.prepared_value_hash js
            (v.prepares e) h)
      (broadcast_round_change-Carries c s.t s.duty s.peer s.round js s.prepared_round
        s.prepared_value_hash ms b)
