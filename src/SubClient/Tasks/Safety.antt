-- ===== src/SubClient/Tasks/Safety.antt =====
-- What every interleaving of the tasks of a `SubClient` keeps (src/base/exchange/sub_client.rs): the
-- entries of `pending` that `watch` unwraps.
use arbexpert_backend.Base.{
  ℕ, String, ◌≡◌, Bool, true, false, not, Option, none, some, [], is_some, arith, eq_iff, str_eq,
  ◌&&◌, ◌||◌,
}
use arbexpert_backend.Std.HashMap
use arbexpert_backend.Std.HashMap.{HashMap, get-insert, get-remove}
use arbexpert_backend.SubClient.{
  Shared, new, on_fail, has_symbol, register, subscribe_answer, broadcast,
}
use arbexpert_backend.SubClient.Registry.{IsCovered, Registers, register_lem, register-Registers}
use arbexpert_backend.SubClient.Tasks.{
  Tasks, start, suspend, resume, Step, registers, answers, suspends, resumes, broadcasts, writes,
  breaks, Reach, here, next,
}

-- What a book under the symbol makes of the calls that wait.
get-suspend :
    (k symbol : String) (was : Option ℕ) (m : HashMap ℕ)
    → is_some (HashMap.get k (elim was [ none ↦ m | some book ↦ HashMap.insert symbol book m ]))
      ≡ (is_some (HashMap.get k m) || (is_some was && str_eq symbol k))
get-suspend k symbol none m = ground arith
get-suspend k symbol (some book) m = ground (arith, get-insert k symbol book m)

module _ {D : Type 0} where
  -- Every subscribed symbol has an entry in `pending`, and so has every symbol of a suspended
  -- `unwatch`, which is not subscribed.
  record IsSafe (x : Tasks D) : Type 0 where
    covers : IsCovered x.shared
    apart :
        (k : String)
        → is_some (HashMap.get k x.suspended) ≡ true
        → (HashMap.get k x.shared.subscribed ≡ none)
          × (is_some (HashMap.get k x.shared.pending) ≡ true)

  start-IsSafe : IsSafe start
  unfolding new HashMap.get
  start-IsSafe = record {
    covers = record { covered = λ k h. cc };
    apart = λ k h. absurd (ground (arith, h));
  }

  registers-IsSafe :
      (symbol : String) (tx : ℕ) (x : Tasks D) (t : Shared D) (first : Bool)
      → IsSafe x
      → HashMap.get symbol x.suspended ≡ none
      → register symbol tx x.shared ≡ some (t, first)
      → IsSafe (record x { shared = t })
  registers-IsSafe symbol tx x t first h n e =
      let (g, _) = register-Registers symbol tx x.shared t first h.covers e in
      record {
        covers = record {
          covered = λ k. ground (
            arith,
            h.covers.covered k,
            g.queued,
            eq_iff symbol k,
            g.others_pending k,
            g.others_subscribed k,
          );
        };
        apart = λ k i.
            let (gone, queued) = h.apart k i in
            (
              ground (arith, i, n, gone, eq_iff symbol k, g.others_subscribed k),
              ground (arith, i, n, queued, eq_iff symbol k, g.others_pending k),
            );
      }

  answers-IsSafe :
      (symbol : String) (first : Bool) (json : Option String) (sends : Bool) (x : Tasks D)
      → IsSafe x
      → HashMap.get symbol x.suspended ≡ none
      → IsSafe (record x { shared = (subscribe_answer symbol first json sends x.shared).0 })
  unfolding subscribe_answer
  answers-IsSafe symbol false json sends x h n = h
  answers-IsSafe symbol true (some j) sends x h n = h
  answers-IsSafe symbol true none sends x h n = record {
    covers = record {
      covered = λ k. ground (
        arith,
        h.covers.covered k,
        get-remove k symbol x.shared.subscribed,
        get-remove k symbol x.shared.pending,
      );
    };
    apart = λ k i.
        let (gone, queued) = h.apart k i in
        (
          ground (arith, i, n, gone, eq_iff symbol k, get-remove k symbol x.shared.subscribed),
          ground (arith, i, n, queued, eq_iff symbol k, get-remove k symbol x.shared.pending),
        );
  }

  suspend-IsSafe : (symbol : String) (x : Tasks D) → IsSafe x → IsSafe (suspend symbol x)
  unfolding suspend
  suspend-IsSafe symbol x h =
      let was = HashMap.get symbol x.shared.subscribed in
      record {
        covers = record {
          covered =
              λ k. ground (arith, h.covers.covered k, get-remove k symbol x.shared.subscribed);
        };
        apart = λ k i. (
          ground (
            arith,
            i,
            h.apart k,
            get-remove k symbol x.shared.subscribed,
            eq_iff symbol k,
            get-suspend k symbol was x.suspended,
          ),
          ground (
            arith,
            i,
            h.apart k,
            h.covers.covered k,
            eq_iff symbol k,
            get-suspend k symbol was x.suspended,
          ),
        );
      }

  resume-IsSafe :
      (symbol : String) (book : ℕ) (json : Option String) (sends : Bool) (x : Tasks D)
      → IsSafe x
      → HashMap.get symbol x.suspended ≡ some book
      → IsSafe (resume symbol book json sends x)
  unfolding resume
  resume-IsSafe symbol book (some json) sends x h e = record {
    covers = record {
      covered = λ k. ground (
        arith,
        e,
        h.covers.covered k,
        h.apart symbol,
        eq_iff symbol k,
        get-remove k symbol x.shared.pending,
      );
    };
    apart = λ k i. (
      ground (arith, i, h.apart k, get-remove k symbol x.suspended),
      ground (
        arith,
        i,
        h.apart k,
        get-remove k symbol x.suspended,
        get-remove k symbol x.shared.pending,
      ),
    );
  }
  resume-IsSafe symbol book none sends x h e = record {
    covers = record {
      covered = λ k. ground (
        arith,
        e,
        h.covers.covered k,
        h.apart symbol,
        eq_iff symbol k,
        get-insert k symbol book x.shared.subscribed,
      );
    };
    apart = λ k i. (
      ground (
        arith,
        i,
        h.apart k,
        get-remove k symbol x.suspended,
        get-insert k symbol book x.shared.subscribed,
      ),
      ground (arith, i, h.apart k, get-remove k symbol x.suspended),
    );
  }

  broadcast-IsSafe :
      (symbol : String) (book : ℕ) (x : Tasks D) (t : Shared D)
      → IsSafe x
      → broadcast symbol book x.shared ≡ some t
      → IsSafe (record x { shared = t })
  unfolding broadcast
  broadcast-IsSafe symbol book x t h e = record {
    covers = record {
      covered = λ k.
          ground (
            arith,
            e,
            h.covers.covered k,
            get-insert k symbol [] x.shared.pending,
            eq_iff symbol k,
          );
    };
    apart = λ k i. (
      ground (arith, e, i, h.apart k),
      ground (arith, e, i, h.apart k, get-insert k symbol [] x.shared.pending, eq_iff symbol k),
    );
  }

  breaks-IsSafe : (x : Tasks D) → x.suspended ≡ [] → IsSafe (record x { shared = on_fail x.shared })
  unfolding on_fail HashMap.get
  breaks-IsSafe x n = record {
    covers = record { covered = λ k h. cc };
    apart = λ k i. absurd (ground (arith, n, i));
  }

  Step-IsSafe : {x y : Tasks D} → IsSafe x → Step x y → IsSafe y
  Step-IsSafe {x} h (registers symbol tx t first n e) = registers-IsSafe symbol tx x t first h n e
  Step-IsSafe {x} h (answers symbol first json sends n) =
      answers-IsSafe symbol first json sends x h n
  Step-IsSafe {x} h (suspends symbol) = suspend-IsSafe symbol x h
  Step-IsSafe {x} h (resumes symbol book json sends e) = resume-IsSafe symbol book json sends x h e
  Step-IsSafe {x} h (broadcasts symbol book t e) = broadcast-IsSafe symbol book x t h e
  Step-IsSafe h (writes r b) = record {
    covers = record { covered = h.covers.covered };
    apart = h.apart;
  }
  Step-IsSafe {x} h (breaks n) = breaks-IsSafe x n

  Reach-IsSafe : {x : Tasks D} → Reach start x → IsSafe x
  Reach-IsSafe here = start-IsSafe
  Reach-IsSafe (next r st) = Step-IsSafe (Reach-IsSafe r) st

  -- From a new client on, however the pieces of the calls interleave, as long as, while an `unwatch`
  -- waits for its closure, no task starts or goes on with a `watch` of the same symbol and the
  -- socket does not fail: a `watch` of any symbol does not panic on its `unwrap`. The sender is
  -- queued for the symbol, and the call is the first exactly if the symbol is not subscribed.
  pub watch_never_panics :
      (x : Tasks D) (symbol : String) (tx : ℕ)
      → Reach start x
      → (t : Shared D) × (register symbol tx x.shared ≡ some (t, not (has_symbol symbol x.shared)))
        × Registers symbol tx x.shared t
  watch_never_panics x symbol tx r =
      let h = Reach-IsSafe r in register_lem symbol tx x.shared h.covers
