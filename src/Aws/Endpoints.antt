-- ===== src/Aws/Endpoints.antt =====
-- What leaves the creation of a database.
use xbench_community.Prelude.{ℕ, false, ◌≡◌, ◌⊎◌}
use xbench_community.Exn.{Exn, aws_rds_cli_exception, aws_rds_compute_exception, attribute_error}
use xbench_community.Exec.{Exec}
use xbench_community.Retry.Outcomes.{IsOnly}
use xbench_community.Cli.{Programs}
use xbench_community.Aws.{Python}
use xbench_community.Aws.Databases.{Database}

module _ {S : Type 0} (programs : Programs S) (python : Python) (now : S → ℕ) (sleep : ℕ → S → S)
    (d : Database) where
  -- AwsRdsComputeException itself, SigTermException, what is no Exception, or the AttributeError
  -- of a machine without a network.
  abbrev pub IsRdsFailure : Exn → Type 0
  IsRdsFailure e =
      IsOnly aws_rds_compute_exception e ⊎ ((d.has_network ≡ false) × (e ≡ attribute_error))

  -- The same inside the `try` block.
  abbrev IsInside : Exn → Type 0
  IsInside e = IsOnly aws_rds_cli_exception e ⊎ ((d.has_network ≡ false) × (e ≡ attribute_error))
