-- ===== src/Lib.antt =====
-- Tellury scans a cloud account, builds a graph of its resources, enriches the graph with metrics
-- and prices, and lets rules look for waste in it. This library models the core of that program.
--
-- The program's parts and where they are modelled:
--   * pkg/graph, the resource graph that every other part reads: `Graph`. `Graph/Node.antt` is
--     node.go and edge.go, `Graph/Build.antt` the mutating half of graph.go (`New`, `AddNode`,
--     `AddEdge`, `SetMetric`, `Freeze`, `Unfreeze`), `Graph/Query.antt` query.go and the counters
--     of graph.go, `Graph/Snapshot.antt` snapshot.go up to the JSON text, which `Graph/Codec.antt`
--     adds: encoding/json is a parameter, and an attribute that is no text, number or flag may come
--     back from it as another value. The other files of `Graph` prove the results: a Go map is an
--     association list without a key twice, a slice a list, a pointer to a node the node's value in
--     the map of the graph, an error an `Option GraphError`, and a panic `none`. `Graph/Reach.antt`
--     has the calls as a step relation.
--   * pkg/rules, the rules: `Rules`. `Rules/Types.antt` is finding.go, rule.go, noderule.go,
--     pass.go and skip.go, `Rules/Adapt.antt` the skeleton that evaluates a node rule (adapt.go), a
--     fold of a record `Run` over the nodes of the rule's kind, `Rules/Registry.antt` registry.go,
--     `Rules/Native.antt` what registers a node rule, `Rules/Coverage.antt` coverage.go,
--     `Rules/Order.antt` sort.go and the comparison at the end of engine.go. `Rules/Engine.antt` is
--     engine.go with `SkipTotals` of pass.go, the workers and the dispatcher as a step relation on
--     a `State`: a step is what the mutex or the channel makes atomic. A rule reads the graph only
--     through `ByKind` and the accessors of a node. The Go context is a function from the number of
--     a reading of `ctx.Err()` to its answer.
--   * pkg/rules/gcp, pkg/rules/aws and pkg/rules/azure, the rules on single resources: the files of
--     `Rules/Gcp`, `Rules/Aws` and `Rules/Azure` are named for the directory of their `rule.go`,
--     and each has its promise in a child module (`Promise`, or `Findings` for detached_disk): a
--     record of conditions and amounts written out with literals, apart from the definitions of the
--     rule. `Rules/Gcp/Shape.antt` is the part of the rule underutilized_instance that prices a
--     shape and looks for a smaller one, and `Rules/Gcp/Shape/Hourly.antt` writes both out for its
--     promise. `Rules/Toolbox.antt` has the services of pass.go, the values that a rule keeps
--     between its guards, `Node.Time` and what Go's `time`, `strconv` and `strings` give a rule,
--     which is a parameter; `Rules/Evidence.antt` is priceevidence.go with `CurrencyOf` and
--     `EvMoneyIn` of rule.go; `Rules/Guarded.antt`, `Rules/Passing.antt` and `Rules/Contract.antt`
--     carry the proofs.
--   * pkg/cloud (scope.go, provider.go) and internal/config, from flags and environment to the
--     scope of a scan: `Scan`. `Scan/Scopes.antt` is scope.go, `Scan/Scope.antt` the scopes of
--     provider.go, `Scan/Config.antt` the part of config.go that settles the provider and its
--     scopes, `Scan/Validate.antt` its `Validate` (`Scan/Accepted.antt` says what it accepts). The
--     environment is a function.
--   * pkg/metrics: `Metrics`. `Metrics/Percentile.antt` is metrics.go, `Metrics/Reduce.antt` the
--     reduction that the three backends share, `Metrics/Measure.antt` what the ends of their
--     `fillOne` have in common, and `Metrics/Gcp.antt`, `Metrics/Aws.antt` and `Metrics/Azure.antt`
--     each backend's spec, window, and path from the samples of a resource to its metric, which the
--     rules then read by `Graph/Node.antt`. The conversions between int and float64 are a
--     parameter.
--   * pkg/pricing: `Pricing`. `Pricing/Region.antt` is the part of pricer.go that finds the region
--     of a location (`Pricing/Cut.antt` says what it cuts off), `Pricing/Cost.antt` the part that
--     prices a machine, `Pricing/Provenance.antt` is provenance.go with `Round2`, and
--     `Pricing/ManagedDisk.antt` azure/managed_disk.go.
-- `Float.antt` is the interface of a float64: its order and its arithmetic are parameters. `Base`
-- has the lists, dictionaries, sorting and string tests that the parts share.
--
-- Not modelled: the rules on underutilized machines of AWS and Azure and on gallery images, the
-- price catalogs, the cloud providers' clients and the queries of monitoring APIs (network I/O),
-- the renderers, the command line, clocks (an instant is a parameter). All recursion is structural,
-- on the lists that the code ranges over: no fuel is needed.

pub mod Base
pub mod Float
pub mod Graph
pub mod Metrics
pub mod Pricing
pub mod Rules
pub mod Scan
