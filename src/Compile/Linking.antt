-- ===== src/Compile/Linking.antt =====
-- src/jit.c, the second and the third loop of `buxn_jit`: which jumps are linked, and what is freed.
use buxn_jit.Prelude.{ℕ, ◌+◌, ◌≡◌, refl, ◌∙◌, ap, List, [], ◌∷◌, length, arith}
use buxn_jit.Jit.{Jit, Entry, enqueue}
use buxn_jit.Compile.Queues.{link_from, cleanup_from, finish, Worked}

-- What the second loop does to the JIT: its entries go to the pool.
record LinkedUp (jit : Jit) (queue : List Entry) (jit' : Jit) : Type 0 where
  root : jit'.root ≡ jit.root
  compile_queue : jit'.compile_queue ≡ jit.compile_queue
  link_queue : jit'.link_queue ≡ []
  cleanup_queue : jit'.cleanup_queue ≡ jit.cleanup_queue
  pool : length jit'.entry_pool ≡ length queue + length jit.entry_pool

link_from-LinkedUp : (jit : Jit) (queue : List Entry) → LinkedUp jit queue (link_from jit queue).1
unfolding link_from
link_from-LinkedUp jit [] = record {
  root = refl;
  compile_queue = refl;
  link_queue = refl;
  cleanup_queue = refl;
  pool = omega arith;
}
link_from-LinkedUp jit (entry ∷ queue) =
    let rest =
      link_from-LinkedUp (record jit { entry_pool = enqueue jit.entry_pool entry }) queue in
    let pool = rest.pool in
    record {
      root = rest.root;
      compile_queue = rest.compile_queue;
      link_queue = rest.link_queue;
      cleanup_queue = rest.cleanup_queue;
      pool = omega (arith, pool);
    }

pub compilers : List Entry → List ℕ
compilers [] = []
compilers (entry ∷ queue) = entry.compiler ∷ compilers queue

record CleanedUp (jit : Jit) (queue : List Entry) (out : List ℕ) (jit' : Jit) : Type 0 where
  root : jit'.root ≡ jit.root
  compile_queue : jit'.compile_queue ≡ jit.compile_queue
  link_queue : jit'.link_queue ≡ jit.link_queue
  cleanup_queue : jit'.cleanup_queue ≡ []
  pool : length jit'.entry_pool ≡ length queue + length jit.entry_pool
  freed : out ≡ compilers queue

cleanup_from-CleanedUp :
    (jit : Jit) (queue : List Entry)
    → CleanedUp jit queue (cleanup_from jit queue).0 (cleanup_from jit queue).1
unfolding cleanup_from compilers
cleanup_from-CleanedUp jit [] = record {
  root = refl;
  compile_queue = refl;
  link_queue = refl;
  cleanup_queue = refl;
  pool = omega arith;
  freed = refl;
}
cleanup_from-CleanedUp jit (entry ∷ queue) =
    let rest =
      cleanup_from-CleanedUp (record jit { entry_pool = enqueue jit.entry_pool entry }) queue in
    let pool = rest.pool in
    record {
      root = rest.root;
      compile_queue = rest.compile_queue;
      link_queue = rest.link_queue;
      cleanup_queue = rest.cleanup_queue;
      pool = omega (arith, pool);
      freed = ap (◌∷◌ entry.compiler) rest.freed;
    }

-- The second and the third loop: the map stays, nothing waits, the compilers of the cleanup queue
-- are freed in its order, and all entries are in the pool.
pub record Finished (jit : Jit) (w : Worked) : Type 0 where
  pub root : w.jit.root ≡ jit.root
  pub compile_queue : w.jit.compile_queue ≡ jit.compile_queue
  pub link_queue : w.jit.link_queue ≡ []
  pub cleanup_queue : w.jit.cleanup_queue ≡ []
  pub freed : w.freed ≡ compilers jit.cleanup_queue
  pub pool :
      length w.jit.entry_pool
      ≡ length jit.link_queue + length jit.cleanup_queue + length jit.entry_pool

pub finish-Finished : (jit : Jit) → Finished jit (finish jit)
unfolding finish
finish-Finished jit =
    let l = link_from-LinkedUp jit jit.link_queue in
    let linked = (link_from jit jit.link_queue).1 in
    let c = cleanup_from-CleanedUp linked linked.cleanup_queue in
    let same = l.cleanup_queue in
    let lp = l.pool in
    let cp = c.pool in
    record {
      root = c.root ∙ l.root;
      compile_queue = c.compile_queue ∙ l.compile_queue;
      link_queue = c.link_queue ∙ l.link_queue;
      cleanup_queue = c.cleanup_queue;
      freed = c.freed ∙ ap compilers same;
      pool = omega (arith, lp, cp, ap length same);
    }
