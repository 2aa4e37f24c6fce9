-- ===== src/Cloud/Parallel.antt =====
-- What `terminate_instances` passes on to the threads.
use xbench_community.Prelude.{
  Bool, false, Option, some, none, List, [], ◌∷◌, ◌≡◌, refl, ap, ◌∙◌, map,
}
use xbench_community.Exec.{Result, Exec, pure, ◌>>=◌, ◌>>◌}
use xbench_community.Cluster.{VirtualStorage, VirtualMachine, Node}
use xbench_community.Cloud.{
  Provider, StorageClass, node_item, submitted, run_threads, run_parallel, results_of,
  terminate_item, terminate_instances, terminate_instance, process_storage,
  process_storage_instances, process_single, detach_storage,
}

abbrev with_destroy :
    {S : Type 0} → Provider S → (StorageClass → VirtualStorage → Exec S (Unit {0})) → Provider S
with_destroy p destroy = record p { destroy_volume = destroy }

module _ {S : Type 0} (p : Provider S)
    (destroy : StorageClass → VirtualStorage → Exec S (Unit {0})) where
  instances_same :
      (l : List VirtualStorage)
      → process_storage_instances p (λ s. detach_storage p s false) l
        ≡ process_storage_instances
            (with_destroy p destroy)
            (λ s. detach_storage (with_destroy p destroy) s false)
            l
  unfolding process_storage_instances detach_storage
  instances_same [] = refl
  instances_same (v ∷ l) =
      ap
        (λ (rest : Exec S (List VirtualStorage)). detach_storage p v false >>= λ ps.
          rest >>= λ r. pure (elim ps [ none ↦ v | some w ↦ w ] ∷ r))
        (instances_same l)

  single_same :
      (o : Option VirtualStorage)
      → process_single p (λ s. detach_storage p s false) o
        ≡ process_single
            (with_destroy p destroy)
            (λ s. detach_storage (with_destroy p destroy) s false)
            o
  unfolding process_single detach_storage
  single_same none = refl
  single_same (some v) = refl

  storage_same :
      (vm : VirtualMachine)
      → process_storage p (λ s. detach_storage p s false) vm
        ≡ process_storage
            (with_destroy p destroy)
            (λ s. detach_storage (with_destroy p destroy) s false)
            vm
  unfolding process_storage
  storage_same vm =
      ap
        (λ (m : Exec S (Option VirtualStorage)). m >>= λ single.
          process_storage_instances p (λ s. detach_storage p s false) vm.storage_list >>= λ volumes.
          pure (record vm { storage = single; storage_list = volumes }))
        (single_same vm.storage)
      ∙ ap
          (λ (m : Exec S (List VirtualStorage)).
            process_single (with_destroy p destroy)
              (λ s. detach_storage (with_destroy p destroy) s false) vm.storage
            >>= λ single.
                m >>= λ volumes. pure (record vm { storage = single; storage_list = volumes }))
          (instances_same vm.storage_list)

  instance_same :
      (n : Node)
      → terminate_instance p n false ≡ terminate_instance (with_destroy p destroy) n false
  unfolding terminate_instance
  instance_same n =
      ap
        (λ (m : Exec S VirtualMachine).
          p.destroy_machine n.vm >> (m >>= λ vm. pure {A = Option Node} none))
        (storage_same n.vm)

  threads_same :
      (nodes : List Node) (b : Bool) (s : S)
      → run_threads (map node_item nodes) (λ i. terminate_item p i (submitted i b)) s
        ≡ run_threads
            (map node_item nodes)
            (λ i. terminate_item (with_destroy p destroy) i (submitted i b))
            s
  unfolding run_threads terminate_item submitted
  threads_same [] b s = refl
  threads_same (n ∷ nodes) b s =
      ap
        (λ (m : Exec S (Option Node)).
          let (r, t) = m s in
          let (rs, t') =
            run_threads (map node_item nodes) (λ i. terminate_item p i (submitted i b)) t in
          (r ∷ rs, t'))
        (instance_same n)
      ∙ ap (λ x. ((terminate_instance (with_destroy p destroy) n false s).0 ∷ x.0, x.1))
          (threads_same nodes b (terminate_instance (with_destroy p destroy) n false s).1)

-- Terminating machines never destroys a volume, even where the caller asks for it: whatever the
-- provider did to destroy one, the outcome would be the same.
pub terminate_instances-keeps_volumes :
    {S : Type 0} (p : Provider S) (destroy : StorageClass → VirtualStorage → Exec S (Unit {0}))
    (as_completed : List (Result (Option Node)) → List (Result (Option Node)))
    (instances : List Node) (terminate_storage : Bool) (s : S)
    → terminate_instances p as_completed instances terminate_storage s
      ≡ terminate_instances
          (record p { destroy_volume = destroy })
          as_completed
          instances
          terminate_storage
          s
unfolding terminate_instances run_parallel
terminate_instances-keeps_volumes p destroy as_completed instances terminate_storage s =
    ap (λ r. (results_of (as_completed r.0), r.1))
      (threads_same p destroy instances terminate_storage s)
